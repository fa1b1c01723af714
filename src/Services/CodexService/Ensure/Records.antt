-- ===== src/Services/CodexService/Ensure/Records.antt =====
-- What a service record says when `prepare` has read it, and what is said of a server that it names.
use chatta.Prelude.{
  Bool-cases, ◌≡◌, refl, sym, ap, ◌∙◌, subst, ◌≢◌, inl, inr, true, false, not, ◌&&◌, Option, none,
  some, ◌++◌, arith,
}
use chatta.Prelude.Int.{ℤ, pos, negsuc, ltb_ℤ, leb_ℤ}
use chatta.Text.Basic.{Text, codes, eq_text, eq_text_iff}
use chatta.Services.CodexService.Endpoint.{validate_local_endpoint}
use chatta.Dal.Process.{Processes}
use chatta.Services.CodexService.Files
use chatta.Services.CodexService.Files.{
  Look, Identity, ServiceRecord, ServiceError, absent, Result, ok, err, ◌>>=◌, ◌>>◌, of_stat,
  of_outcome, of_fault, of_endpoint, guard, open_record, foreign_record, decoded, is_usable,
  probe_codex_endpoint, record_process_matches, read_codex_service_record, secure_service_home,
  normalize_managed_codex_socket,
}
use chatta.Services.CodexService.Occasion.{
  ServiceStatus, Occasion, Prepared, prepare, same_identity, if_there, join_path,
}
use chatta.Services.CodexService.Ensure.{reuse_recorded}

bind_ok {ℓ κ} :
    {A : Type ℓ} {B : Type κ} (m : Result A) (f : A → Result B) (b : B)
    → (m >>= f) ≡ ok b
    → (a : A) × (m ≡ ok a) × (f a ≡ ok b)
bind_ok (ok a) f b h = (a, refl, h)
bind_ok (err e) f b h = cc

decoded_usable :
    (d : Option ServiceRecord) (r : ServiceRecord) → decoded d ≡ ok r → is_usable r ≡ true
decoded_usable none r h = cc
decoded_usable (some r') r h = elim (Bool-cases (is_usable r')) [
  | inl good ↦ subst (λ x. is_usable x ≡ true) (ap (record_or r') (rw good at h)) good
  | inr bad ↦ absurd (wrong (rw bad at h))
]
  where
    record_or : ServiceRecord → Result ServiceRecord → ServiceRecord
    record_or x (ok y) = y
    record_or x (err e) = x

    wrong : {e : ServiceError} → err e ≡ ok r → ⊥
    wrong h = cc

read_usable :
    (o : Occasion) (path : Text) (r : ServiceRecord)
    → read_codex_service_record o.codec o.at_home path o.record_content ≡ ok r
    → is_usable r ≡ true
unfolding read_codex_service_record
read_usable o path r h =
    let (file, _, h1) = bind_ok (of_stat (o.at_home.lstat path)) _ r h in
    let (_, _, h2) =
      bind_ok (guard (file.is_regular && file.private && not file.is_symlink) open_record) _ r h1 in
    let (_, _, h3) = bind_ok (guard file.own foreign_record) _ r h2 in
    let (b, _, h4) = bind_ok (of_outcome o.record_content) _ r h3 in
    decoded_usable (o.codec.decode b) r h4

if_there-some : (x : Result ServiceRecord) (r : ServiceRecord) → if_there x ≡ ok (some r) → x ≡ ok r
if_there-some (ok r') r h = ap (found_or r') h
  where
    found_or : ServiceRecord → Result (Option ServiceRecord) → Result ServiceRecord
    found_or x (ok (some y)) = ok y
    found_or x other = ok x
if_there-some (err e) r h = absurd (not_there e h)
  where
    not_there : (e : ServiceError) → if_there (err e) ≢ ok (some r)
    not_there absent = λ h. cc
    not_there (Files.bad_endpoint e) = λ h. cc
    not_there _ = λ h. cc

-- A record that `prepare` finds has a process ID above 1.
pub prepare_usable :
    (o : Occasion) (p : Prepared) (r : ServiceRecord)
    → prepare o ≡ ok p
    → p.record_found ≡ some r
    → is_usable r ≡ true
unfolding prepare
prepare_usable o p r h there =
    let (home, _, h1) = bind_ok (of_outcome o.home) _ p h in
    let (_, _, h2) = bind_ok (secure_service_home o.at_home o.mkdir home) _ p h1 in
    let (_, _, h3) = bind_ok (of_fault o.lock) _ p h2 in
    let socket = join_path home (codes "app-server.sock") in
    let (_, _, h4) =
      bind_ok (of_endpoint (validate_local_endpoint (codes "unix://" ++ socket))) _ p h3 in
    let path = join_path home (codes "service.json") in
    let (found, reads, h5) =
      bind_ok (if_there (read_codex_service_record o.codec o.at_home path o.record_content)) _ p
        h4 in
    read_usable o path r (if_there-some _ r (reads ∙ ap ok (ap (found_of found) h5 ∙ there)))
  where
    found_of : Option ServiceRecord → Result Prepared → Option ServiceRecord
    found_of x (ok p) = p.record_found
    found_of x (err e) = x

usable-positive : (r : ServiceRecord) → is_usable r ≡ true → ltb_ℤ (pos 0) r.pid ≡ true
usable-positive r h = positive r.pid (ground (arith, h))
  where
    positive : (n : ℤ) → leb_ℤ n (pos 1) ≡ false → ltb_ℤ (pos 0) n ≡ true
    positive (pos n) h = ground (arith, h)
    positive (negsuc n) h = ground (arith, h)

-- The status of a server that was there, at an endpoint with or without a record.
pub record Matches (ps : Processes) (endpoint : Text) (i : Identity) (s : ServiceStatus)
    (r : ServiceRecord) : Type 0 where
  pub runs : record_process_matches ps r ≡ true
  pub here : r.endpoint ≡ endpoint
  pub identified : same_identity r.identity i ≡ true
  pub pid_shown : s.pid ≡ r.pid
  pub version_shown : s.version ≡ r.cli_version

abbrev pub MatchesFound :
    Processes → Text → Identity → ServiceStatus → Option ServiceRecord → Type 0
MatchesFound ps endpoint i s none = s.pid ≡ pos 0
MatchesFound ps endpoint i s (some r) = Matches ps endpoint i s r

abbrev pub status_or : ServiceStatus → Result ServiceStatus → ServiceStatus
status_or s (ok t) = t
status_or s (err e) = s

pub recorded-Matches :
    (ps : Processes) (endpoint : Text) (i : Identity) (s : ServiceStatus) (r : ServiceRecord)
    → is_usable r ≡ true
    → reuse_recorded ps endpoint i r ≡ ok s
    → Matches ps endpoint i s r × (s.endpoint ≡ endpoint) × (s.identity ≡ i)
recorded-Matches ps endpoint i s r usable h =
    let above = usable-positive r usable in
    let runs : record_process_matches ps r ≡ true = ground (arith, h, above) in
    let here : eq_text r.endpoint endpoint ≡ true = ground (arith, h, above, runs) in
    let same : same_identity r.identity i ≡ true = ground (arith, h, above, runs, here) in
    let is_status = rw (runs, here, above, same) at h in
    (
      record {
        runs = runs;
        here = (eq_text_iff r.endpoint endpoint).0 here;
        identified = same;
        pid_shown = sym (ap (λ x. (status_or s x).pid) is_status);
        version_shown = sym (ap (λ x. (status_or s x).version) is_status);
      },
      sym (ap (λ x. (status_or s x).endpoint) is_status),
      sym (ap (λ x. (status_or s x).identity) is_status),
    )
