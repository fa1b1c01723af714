-- ===== src/Services/Codex/Subscriptions.antt =====
-- What the subscriptions of a binding are.
use chatta.Prelude.{
  if◌then◌else◌, if_intro, All, All-imp, ◌≡◌, refl, sym, subst, Bool, true, false, not, ◌||◌,
  Option, none, some, List, [], ◌∷◌, arith,
}
use chatta.Text.Basic.{Text, codes, eq_text, eq_text_iff, eq_text_ne, eq_text_refl, has_prefix}
use chatta.Text.Case.{Unicode}
use chatta.Dal.State.{is_empty}
use chatta.Services.Codex.{
  lower_name, onto_kept, is_member, normalize_from, normalize_subscribed_channels,
}

-- No name stands twice, as the code tests it.
abbrev pub Once : List Text → Type 0
Once [] = Unit
Once (n ∷ ns) = (is_member n ns ≡ false) × Once ns

abbrev Fresh : List Text → Text → Type 0
Fresh seen n = (has_prefix n (codes "#") ≡ true) × (is_member n seen ≡ false)

-- Every requested channel is there or was seen before.
abbrev Covers : Unicode → List Text → List Text → List Text → Type 0
Covers u seen cs ns =
    All (λ c. (is_member (lower_name u c) ns || is_member (lower_name u c) seen) ≡ true) cs

record Normal (u : Unicode) (seen cs ns : List Text) : Type 0 where
  fresh : All (Fresh seen) ns
  once : Once ns
  covers : Covers u seen cs ns

eq_text-swap : (n m : Text) → eq_text n m ≡ false → eq_text m n ≡ false
eq_text-swap n m h = eq_text_ne m n (λ e. ground (arith, h, (eq_text_iff n m).1 (sym e)))

-- Names fresh behind one more do not hold that one.
is_member-Fresh :
    (n : Text) (seen ns : List Text) → All (Fresh (n ∷ seen)) ns → is_member n ns ≡ false
is_member-Fresh n seen [] h = refl
is_member-Fresh n seen (m ∷ ns) h =
    let apart : eq_text m n ≡ false = ground (arith, h.0.1) in
    rw (eq_text-swap m n apart, is_member-Fresh n seen ns h.1)

Fresh-tail : (n : Text) (seen : List Text) (m : Text) → Fresh (n ∷ seen) m → Fresh seen m
Fresh-tail n seen m h = (h.0, ground (arith, h.1))

onto_kept-some :
    (n : Text) (o : Option (List Text)) (ns : List Text)
    → onto_kept n o ≡ some ns
    → (ms : List Text) × (o ≡ some ms) × (n ∷ ms ≡ ns)
onto_kept-some n none ns h = absurd (ground arith)
onto_kept-some n (some ms) ns h = (ms, refl, cc)

reordered : (m e s : Bool) → (m || (e || s)) ≡ true → ((e || m) || s) ≡ true
reordered m e s h = ground arith

or_nothing : (b : Bool) → (b || false) ≡ true → b ≡ true
or_nothing b h = ground arith

normalize_from-Normal :
    (u : Unicode) (seen cs ns : List Text)
    → normalize_from u seen cs ≡ some ns
    → Normal u seen cs ns
unfolding normalize_from
normalize_from-Normal u seen [] ns h =
    let empty : [] ≡ ns = cc in
    subst (Normal u seen []) empty (record { fresh = tt; once = tt; covers = tt })
normalize_from-Normal u seen (c ∷ cs) ns h =
    let n = lower_name u c in
    if_intro (λ o. o ≡ some ns → Normal u seen (c ∷ cs) ns)
      (is_empty n || not (has_prefix n (codes "#"))) none
      (if is_member n seen
        then normalize_from u seen cs
        else onto_kept n (normalize_from u (n ∷ seen) cs))
      (λ e k. absurd (ground arith))
      (λ good.
        if_intro (λ o. o ≡ some ns → Normal u seen (c ∷ cs) ns) (is_member n seen)
          (normalize_from u seen cs) (onto_kept n (normalize_from u (n ∷ seen) cs))
          (λ again k. repeated c cs again (normalize_from-Normal u seen cs ns k))
          (λ new k.
            let (ms, kept, same) = onto_kept-some n (normalize_from u (n ∷ seen) cs) ns k in
            subst (Normal u seen (c ∷ cs)) same
              (added c cs (ground arith) new (normalize_from-Normal u (n ∷ seen) cs ms kept))))
      h
  where
    repeated :
        (c : Text) (cs : List Text)
        → is_member (lower_name u c) seen ≡ true
        → Normal u seen cs ns
        → Normal u seen (c ∷ cs) ns
    repeated c cs h d = record {
      fresh = d.fresh;
      once = d.once;
      covers = (ground (arith, h), d.covers);
    }

    added :
        {ms : List Text} (c : Text) (cs : List Text)
        → has_prefix (lower_name u c) (codes "#") ≡ true
        → is_member (lower_name u c) seen ≡ false
        → Normal u (lower_name u c ∷ seen) cs ms
        → Normal u seen (c ∷ cs) (lower_name u c ∷ ms)
    added {ms = ms} c cs hash new d = record {
      fresh = ((hash, new), All-imp (Fresh-tail (lower_name u c) seen) ms d.fresh);
      once = (is_member-Fresh (lower_name u c) seen ms d.fresh, d.once);
      covers = (
        ground (arith, eq_text_refl (lower_name u c)),
        All-imp
            (λ x.
              reordered (is_member (lower_name u x) ms) (eq_text (lower_name u x) (lower_name u c))
                (is_member (lower_name u x) seen))
            cs d.covers,
      );
    }

-- The normalized subscriptions start with #, none of them stands twice, and each channel asked for is
-- among them in its lower-case form.
pub normalize_subscribed_channels-Once :
    (u : Unicode) (channels ns : List Text)
    → normalize_subscribed_channels u channels ≡ some ns
    → All (λ n. has_prefix n (codes "#") ≡ true) ns
      × Once ns
      × All (λ c. is_member (lower_name u c) ns ≡ true) channels
unfolding normalize_subscribed_channels
normalize_subscribed_channels-Once u channels ns h =
    let d = normalize_from-Normal u [] channels ns h in
    (All-imp (λ n k. k.0) ns d.fresh, d.once, All-imp (λ c k. or_nothing _ k) channels d.covers)
