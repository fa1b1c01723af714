-- ===== src/Services/CodexService/Endpoint.antt =====
-- pkg/services/codex_service.go: which endpoints are local.
use chatta.Prelude.{
  ltb, if◌then◌else◌, Bool-cases, lt→ltb, ltb→lt, drop, all, any, ◌<◌, ◌≡◌, refl, sym, ◌∙◌, ◌↔◌,
  ◌⊎◌, inl, inr, Bool, true, false, not, ◌||◌, Option, none, some, [], ◌∷◌, ◌++◌, arith,
}
use chatta.Text.Basic.{
  Text, codes, has_prefix, trim_prefix, contains, eq_text, eq_text_iff, has_prefix_split,
  has_prefix_append,
}
use chatta.Text.Utf8.{byte_len}
use chatta.Text.Path.{split_slash, clean_rooted, is_parent, is_step, clean_rooted_iff}

pub data EndpointError : Type 0 where
  not_local unsafe_path has_nul : EndpointError

unfoldable pub has_parent_segment : Text → Bool
has_parent_segment path = any is_parent (split_slash path)

-- The checks of the path, which the prefix lets start with a slash; `rest` is what follows it.
abbrev pub check_path : Text → Option EndpointError
check_path rest =
    let path = b'/' ∷ rest in
    if not (ltb (byte_len path) 100)
      || not (eq_text (clean_rooted rest) path)
      || has_parent_segment path
    then some unsafe_path
    else if contains path 0
    then some has_nul
    else none

unfoldable pub validate_local_endpoint : Text → Option EndpointError
validate_local_endpoint endpoint =
    if not (has_prefix endpoint (codes "unix:///"))
    then some not_local
    else check_path (trim_prefix endpoint (codes "unix:///"))

-- The path of a local endpoint: absolute, short, with no element that leads elsewhere, and no NUL.
pub record IsPlainPath (rest : Text) : Type 0 where
  pub short : byte_len (b'/' ∷ rest) < 100
  pub no_nul : contains rest 0 ≡ false
  pub no_parent : any is_parent (split_slash rest) ≡ false
  pub steps : (rest ≡ []) ⊎ (all is_step (split_slash rest) ≡ true)

parent_segment : (rest : Text) → has_parent_segment (b'/' ∷ rest) ≡ any is_parent (split_slash rest)
unfolding has_parent_segment split_slash eq_text
parent_segment rest = refl

check_path-plain : (rest : Text) → check_path rest ≡ none → IsPlainPath rest
check_path-plain rest h =
    let short : ltb (byte_len (b'/' ∷ rest)) 100 ≡ true = ground (arith, h) in
    let clean : eq_text (clean_rooted rest) (b'/' ∷ rest) ≡ true = ground (arith, h) in
    let parent : has_parent_segment (b'/' ∷ rest) ≡ false = ground (arith, h) in
    let nul : contains (b'/' ∷ rest) 0 ≡ false = ground (arith, h) in
    let no_parent = sym (parent_segment rest) ∙ parent in
    record {
      short = ltb→lt (byte_len (b'/' ∷ rest)) 100 short;
      no_nul = unfold contains in nul;
      no_parent = no_parent;
      steps =
          (clean_rooted_iff rest no_parent).0
            ((eq_text_iff (clean_rooted rest) (b'/' ∷ rest)).0 clean);
    }

plain-check_path : (rest : Text) → IsPlainPath rest → check_path rest ≡ none
plain-check_path rest d =
    let short = lt→ltb (byte_len (b'/' ∷ rest)) 100 d.short in
    let clean =
      (eq_text_iff (clean_rooted rest) (b'/' ∷ rest)).1
        ((clean_rooted_iff rest d.no_parent).1 d.steps) in
    let parent = parent_segment rest ∙ d.no_parent in
    let nul : contains (b'/' ∷ rest) 0 ≡ false = unfold contains in d.no_nul in
    rw (short, clean, parent, nul)

-- An endpoint is local exactly when it is `unix:///` and a path of less than 100 bytes that has
-- neither a NUL nor an element that is `..`, and that is empty or has no element that is empty
-- or `.` either.
pub validate_local_endpoint_iff :
    (endpoint : Text)
    → (validate_local_endpoint endpoint ≡ none)
      ↔ ((rest : Text) × (endpoint ≡ codes "unix:///" ++ rest) × IsPlainPath rest)
unfolding validate_local_endpoint trim_prefix
validate_local_endpoint_iff endpoint = (
  λ h. elim (Bool-cases (has_prefix endpoint (codes "unix:///"))) [
    | inl local ↦ (
      drop 8 endpoint,
      has_prefix_split endpoint (codes "unix:///") local,
      check_path-plain (drop 8 endpoint) (rw local at h),
    )
    | inr other ↦ absurd (ground (arith, h, other))
  ],
  λ (rest, e, d). rw e (rw (has_prefix_append (codes "unix:///") rest) (plain-check_path rest d)),
)
