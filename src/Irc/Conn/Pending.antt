-- ===== src/Irc/Conn/Pending.antt =====
-- The table of pending requests: which requests a step can reach, and what it leaves alone.
use chatta.Prelude.{
  Bool-cases, Option-cases, length, get_elem?, length-append, length-set, get_elem?-lt,
  get_elem?-set_self, get_elem?-set_ne, get_elem?-concat_lt, get_elem?-concat_self, ℕ, ◌<◌, ◌≡◌,
  refl, sym, ap, ◌∙◌, ◌≢◌, ◌⊎◌, inl, inr, true, false, none, some, List, [], ◌∷◌, ◌++◌, arith,
}
use native.Mathlib.Decide.{ℕ_discrete}
use chatta.Text.Basic.{Text, eq_text, eq_text_iff}
use chatta.Irc.Conn.Table.{lookup, insert, delete, lookup-insert, lookup-delete}
use chatta.Irc.Conn.State.{PendingRequest, Conn, update_request}

abbrev Table : Type 0
Table = List (Text × ℕ)

abbrev Requests : Type 0
Requests = List PendingRequest

-- The request exists and its channel `done` is not closed.
abbrev pub IsOpen : ℕ → Requests → Type 0
IsOpen r q = (req : PendingRequest) × (get_elem? q r ≡ some req) × (req.done ≡ false)

-- Every request in the table is open, and no request stands under two keys.
pub record IsValid (p : Table) (q : Requests) : Type 0 where
  pub are_open : (k : Text) (r : ℕ) → lookup k p ≡ some r → IsOpen r q
  pub apart : (k j : Text) (r : ℕ) → lookup k p ≡ some r → lookup j p ≡ some r → k ≡ j

-- The request exists and stands under no key.
abbrev pub Unreachable : ℕ → Table → Requests → Type 0
Unreachable r p q = (r < length q) × ((k : Text) → lookup k p ≢ some r)

-- A step keeps the table valid, and what is out of its reach as it was and out of reach.
pub record Keeps (p : Table) (q : Requests) (p' : Table) (q' : Requests) : Type 0 where
  pub valid : IsValid p' q'
  pub beyond : (r : ℕ) → Unreachable r p q → Unreachable r p' q' × (get_elem? q' r ≡ get_elem? q r)

abbrev pub Kept : Conn → Conn → Type 0
Kept c d = Keeps c.pending c.requests d.pending d.requests

abbrev pub Sound : Conn → Type 0
Sound c = IsValid c.pending c.requests

pub Keeps-refl : (p : Table) (q : Requests) → IsValid p q → Keeps p q p q
Keeps-refl p q v = record { valid = v; beyond = λ r h. (h, refl) }

pub Keeps-trans :
    {p p' p'' : Table} {q q' q'' : Requests}
    → Keeps p q p' q'
    → Keeps p' q' p'' q''
    → Keeps p q p'' q''
Keeps-trans k l = record {
  valid = l.valid;
  beyond = λ r h. let (h', e) = k.beyond r h in let (h'', e') = l.beyond r h' in (h'', e' ∙ e);
}

-- A completed request is out of reach.
pub Unreachable-of_done :
    (r : ℕ) (p : Table) (q : Requests) {req : PendingRequest}
    → IsValid p q
    → get_elem? q r ≡ some req
    → req.done ≡ true
    → Unreachable r p q
Unreachable-of_done r p q v e d =
    (get_elem?-lt q r e, λ k h. let (req', e', o) = v.are_open k r h in ground arith)

insert_cases :
    (k j : Text) (n r : ℕ) (p : Table)
    → lookup j (insert k n p) ≡ some r
    → ((k ≡ j) × (n ≡ r)) ⊎ ((k ≢ j) × (lookup j p ≡ some r))
insert_cases k j n r p h = elim (Bool-cases (eq_text k j)) [
  | inl same ↦ inl ((eq_text_iff k j).0 same, ground (arith, lookup-insert k j n p))
  | inr other ↦
      inr (λ e. ground (arith, (eq_text_iff k j).1 e), ground (arith, lookup-insert k j n p))
]

delete_cases :
    (k j : Text) (r : ℕ) (p : Table)
    → lookup j (delete k p) ≡ some r
    → (k ≢ j) × (lookup j p ≡ some r)
delete_cases k j r p h = elim (Bool-cases (eq_text k j)) [
  | inl same ↦ absurd (ground (arith, lookup-delete k j p))
  | inr other ↦ (λ e. ground (arith, (eq_text_iff k j).1 e), ground (arith, lookup-delete k j p))
]

-- A new request.

abbrev pub fresh_request : PendingRequest
fresh_request = record { done = false; err = none; names_collected = [] }

module _ (key : Text) (p : Table) (q : Requests) (v : IsValid p q) where
  pub new-IsOpen :
      (k : Text) (r : ℕ)
      → lookup k (insert key (length q) p) ≡ some r
      → IsOpen r (q ++ fresh_request ∷ [])
  new-IsOpen k r h = elim (insert_cases key k (length q) r p h) [
    | inl (_, n) ↦ (fresh_request, rw (← n) (get_elem?-concat_self q fresh_request), refl)
    | inr (_, old) ↦
        let (req, e, o) = v.are_open k r old in
        (req, get_elem?-concat_lt q r fresh_request (get_elem?-lt q r e) ∙ e, o)
  ]

  below : (k : Text) (r : ℕ) → lookup k p ≡ some r → r < length q
  below k r h = let (req, e, o) = v.are_open k r h in get_elem?-lt q r e

  pub new_apart :
      (k j : Text) (r : ℕ)
      → lookup k (insert key (length q) p) ≡ some r
      → lookup j (insert key (length q) p) ≡ some r
      → k ≡ j
  new_apart k j r h h' = elim (insert_cases key k (length q) r p h) [
    | inl (e, n) ↦ elim (insert_cases key j (length q) r p h') [
      | inl (e', n') ↦ sym e ∙ e'
      | inr (_, old) ↦ absurd (omega (arith, below j r old, n))
    ]
    | inr (_, old) ↦ elim (insert_cases key j (length q) r p h') [
      | inl (_, n') ↦ absurd (omega (arith, below k r old, n'))
      | inr (_, old') ↦ v.apart k j r old old'
    ]
  ]

  pub new_beyond :
      (r : ℕ)
      → Unreachable r p q
      → Unreachable r (insert key (length q) p) (q ++ fresh_request ∷ [])
        × (get_elem? (q ++ fresh_request ∷ []) r ≡ get_elem? q r)
  new_beyond r (lt, out) = (
    (
      omega (arith, lt, length-append q (fresh_request ∷ [])),
      λ k h. elim (insert_cases key k (length q) r p h) [
        | inl (_, n) ↦ omega (arith, lt, n)
        | inr (_, old) ↦ out k old
      ],
    ),
    get_elem?-concat_lt q r fresh_request lt,
  )

-- Writing to an open request that stands under `key`.
module _ (key : Text) (n : ℕ) (p : Table) (q : Requests) (f : PendingRequest → PendingRequest)
    (v : IsValid p q) (found : lookup key p ≡ some n) where
  pub update_beyond : (r : ℕ) → r ≢ n → get_elem? (update_request n f q) r ≡ get_elem? q r
  update_beyond r ne = elim (Option-cases (get_elem? q n)) [
    | inl e ↦ rw (e, update_request)
    | inr (req, e) ↦ rw (e, update_request) (get_elem?-set_ne q n r (f req) (λ x. ne (sym x)))
  ]

  length-update : length (update_request n f q) ≡ length q
  length-update = elim (Option-cases (get_elem? q n)) [
    | inl e ↦ rw (e, update_request)
    | inr (req, e) ↦ rw (e, update_request) (length-set q n (f req))
  ]

  pub update_self :
      (req : PendingRequest)
      → get_elem? q n ≡ some req
      → get_elem? (update_request n f q) n ≡ some (f req)
  update_self req e = rw (e, update_request) (get_elem?-set_self q n (f req) (get_elem?-lt q n e))

  Unreachable-ne : (r : ℕ) → Unreachable r p q → r ≢ n
  Unreachable-ne r (lt, out) e = out key (found ∙ ap some (sym e))

  pub resolve_Keeps : Keeps p q (delete key p) (update_request n f q)
  resolve_Keeps = record {
    valid = record {
      are_open = λ k r h.
          let (ne, old) = delete_cases key k r p h in
          let (req, e, o) = v.are_open k r old in
          let other : r ≢ n = λ x. ne (v.apart key k n found (old ∙ ap some x)) in
          (req, update_beyond r other ∙ e, o);
      apart =
          λ k j r h h'. v.apart k j r (delete_cases key k r p h).1 (delete_cases key j r p h').1;
    };
    beyond = λ r out. (
      (omega (arith, out.0, length-update), λ k h. out.1 k (delete_cases key k r p h).1),
      update_beyond r (Unreachable-ne r out),
    );
  }

  pub collect_Keeps :
      ((req : PendingRequest) → (f req).done ≡ req.done) → Keeps p q p (update_request n f q)
  collect_Keeps same = record {
    valid = record {
      are_open = λ k r h.
          let (req, e, o) = v.are_open k r h in
          elim (ℕ_discrete r n) [
            | yes here ↦ (f req, rw here (update_self req (rw here at e)), same req ∙ o)
            | no away ↦ (req, update_beyond r away ∙ e, o)
          ];
      apart = v.apart;
    };
    beyond = λ r out.
        ((omega (arith, out.0, length-update), out.1), update_beyond r (Unreachable-ne r out));
  }

-- A request whose key a second one takes.
module _ (key : Text) (p : Table) (q : Requests) (v : IsValid p q) where
  pub overtaken-Unreachable :
      Unreachable
        (length q)
        (insert key (length (q ++ fresh_request ∷ [])) (insert key (length q) p))
        ((q ++ fresh_request ∷ []) ++ fresh_request ∷ [])
  overtaken-Unreachable = (
    omega (
      arith,
      length-append q (fresh_request ∷ []),
      length-append (q ++ fresh_request ∷ []) (fresh_request ∷ []),
    ),
    λ k h.
        elim (insert_cases key k (length (q ++ fresh_request ∷ [])) (length q)
          (insert key (length q) p) h) [
            | inl (_, n) ↦ omega (arith, length-append q (fresh_request ∷ []), n)
            | inr (ne, old) ↦ elim (insert_cases key k (length q) (length q) p old) [
              | inl (e, _) ↦ ne e
              | inr (_, older) ↦ omega (arith, below key p q v k (length q) older)
            ]
          ],
  )

  pub overtaken_waits :
      get_elem? ((q ++ fresh_request ∷ []) ++ fresh_request ∷ []) (length q) ≡ some fresh_request
  overtaken_waits =
      get_elem?-concat_lt (q ++ fresh_request ∷ []) (length q) fresh_request
        (omega (arith, length-append q (fresh_request ∷ [])))
      ∙ get_elem?-concat_self q fresh_request
