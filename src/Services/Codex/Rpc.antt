-- ===== src/Services/Codex/Rpc.antt =====
-- pkg/services/codex_app_client.go: the calls over one connection to the app-server. What is read
-- from it is a list; a message has the text of its ID and what JSON leaves of the rest.
use chatta.Prelude.{
  if◌then◌else◌, All, ℕ, suc, ◌≤◌, ◌≡◌, refl, sym, ap, ◌∙◌, ◌≢◌, ◌⊎◌, inl, inr, Bool, false, not,
  ◌&&◌, Option, none, some, List, [], ◌∷◌, ◌++◌, map, arith,
}
use chatta.Prelude.Int.{ℤ}
use chatta.Text.Basic.{Text, eq_text, eq_text_refl, eq_text_ne}
use chatta.Text.Number.{digits_from, decimal, digits_from-decimal}
use chatta.Dal.State.{is_empty}
use chatta.Services.Control.{Outcome, done, refused}
use chatta.Services.Codex.Client.{DeliveryError, rpc, other, Answer, answered, failed}

pub record RpcMessage (A : Type 0) : Type 0 where
  pub id : Text
  pub error : Option (ℤ × Text)
  pub result : Outcome A

-- The number of calls so far, and what is left to read: a message, or an error of reading one.
pub record Rpc (A : Type 0) : Type 0 where
  pub next : ℕ
  pub incoming : List (Text ⊎ RpcMessage A)

module _ {A : Type 0} where
  unfoldable pub is_reply : ℕ → RpcMessage A → Bool
  is_reply id m = not (is_empty m.id) && eq_text m.id (decimal id)

  abbrev result_of : Outcome A → Answer A
  result_of (done a) = answered a
  result_of (refused e) = failed (other e)

  abbrev error_or : Text → Option (ℤ × Text) → Answer A → Answer A
  error_or method none a = a
  error_or method (some (code, message)) a = failed (rpc method code message)

  abbrev pub reply_of : Text → RpcMessage A → Answer A
  reply_of method m = error_or method m.error (result_of m.result)

  -- The loop of a call; at the end of the list its time is over, and `late` is the error.
  unfoldable pub await_reply :
      Text → ℕ → Text → List (Text ⊎ RpcMessage A) → List (Text ⊎ RpcMessage A) × Answer A
  await_reply late id method [] = ([], failed (other late))
  await_reply late id method (inl e ∷ ms) = (ms, failed (other e))
  await_reply late id method (inr m ∷ ms) =
      let later = await_reply late id method ms in
      if is_reply id m then (ms, reply_of method m) else later

  -- `callDispatched`, with the error of its authorization or of its write.
  unfoldable pub call_dispatched : Text → Text → Option DeliveryError → Rpc A → Rpc A × Answer A
  call_dispatched late method (some e) r = (record r { next = suc r.next }, failed e)
  call_dispatched late method none r =
      let (rest, a) = await_reply late (suc r.next) method r.incoming in
      (record { next = suc r.next; incoming = rest }, a)

  -- Calls one after the other.
  unfoldable pub calls : Text → List Text → Rpc A → List (Answer A)
  calls late [] r = []
  calls late (method ∷ methods) r =
      let (after, a) = call_dispatched late method none r in a ∷ calls late methods after

-- A call, what the app-server sends before it answers, and its answer.
pub record Exchange (A : Type 0) : Type 0 where
  pub method : Text
  pub between : List (RpcMessage A)
  pub reply : RpcMessage A

old_id : (n k : ℕ) → k ≤ n → decimal k ≢ decimal (suc n)
old_id n k le e =
    let same : some k ≡ some (suc n) =
      sym (digits_from-decimal k) ∙ ap (digits_from 0) e ∙ digits_from-decimal (suc n) in
    ground (arith, same, le)

decimal-is_empty : (n : ℕ) → is_empty (decimal (suc n)) ≡ false
unfolding digits_from
decimal-is_empty n = of_text (decimal (suc n)) (digits_from-decimal (suc n))
  where
    of_text : (s : Text) → digits_from 0 s ≡ some (suc n) → is_empty s ≡ false
    of_text [] h = absurd (ground (arith, h))
    of_text (c ∷ s) h = refl

module _ {A : Type 0} where
  abbrev pub with_id : ℕ → RpcMessage A → RpcMessage A
  with_id id m = record m { id = decimal id }

  -- What the app-server sends when it answers each call under its number.
  abbrev pub conversation :
      ℕ → List (Exchange A) → List (Text ⊎ RpcMessage A) → List (Text ⊎ RpcMessage A)
  conversation n [] after = after
  conversation n (x ∷ xs) after =
      map inr x.between ++ (inr (with_id (suc n) x.reply) ∷ conversation (suc n) xs after)

  -- A notification, or a reply to one of the calls so far.
  abbrev pub IsOld : ℕ → RpcMessage A → Type 0
  IsOld n m = (m.id ≡ []) ⊎ ((k : ℕ) × (k ≤ n) × (m.id ≡ decimal k))

  abbrev pub AllOld : ℕ → List (Exchange A) → Type 0
  AllOld n [] = Unit
  AllOld n (x ∷ xs) = All (IsOld n) x.between × AllOld (suc n) xs

  IsOld-is_reply : (n : ℕ) (m : RpcMessage A) → IsOld n m → is_reply (suc n) m ≡ false
  unfolding is_reply
  IsOld-is_reply n m (inl e) = rw e refl
  IsOld-is_reply n m (inr (k, le, e)) =
      let different : eq_text m.id (decimal (suc n)) ≡ false =
        rw e (eq_text_ne (decimal k) (decimal (suc n)) (old_id n k le)) in
      ground (arith, different)

  await_reply-old :
      (late method : Text) (n : ℕ) (old : List (RpcMessage A)) (ms : List (Text ⊎ RpcMessage A))
      → All (IsOld n) old
      → await_reply late (suc n) method (map inr old ++ ms) ≡ await_reply late (suc n) method ms
  unfolding await_reply
  await_reply-old late method n [] ms h = refl
  await_reply-old late method n (m ∷ old) ms (h, hs) =
      rw (IsOld-is_reply n m h) (await_reply-old late method n old ms hs)

  await_reply-own :
      (late method : Text) (n : ℕ) (m : RpcMessage A) (ms : List (Text ⊎ RpcMessage A))
      → await_reply late (suc n) method (inr (with_id (suc n) m) ∷ ms) ≡ (ms, reply_of method m)
  unfolding await_reply is_reply
  await_reply-own late method n m ms = rw (decimal-is_empty n, eq_text_refl (decimal (suc n))) refl

  -- Over one connection, every call gets the answer to its own request, in order, if the app-server
  -- answers each one under its number, whatever notifications and late replies to earlier calls it
  -- sends in between.
  pub calls-answered :
      (late : Text) (n : ℕ) (xs : List (Exchange A)) (after : List (Text ⊎ RpcMessage A))
      → AllOld n xs
      → calls late
          (map (λ x. x.method) xs)
          (record { next = n; incoming = conversation n xs after })
        ≡ map (λ x. reply_of x.method x.reply) xs
  unfolding calls call_dispatched
  calls-answered late n [] after h = refl
  calls-answered late n (x ∷ xs) after (h, hs) =
      rw
        (
          await_reply-old late x.method n x.between
              (inr (with_id (suc n) x.reply) ∷ conversation (suc n) xs after) h,
          await_reply-own late x.method n x.reply (conversation (suc n) xs after),
        )
        (ap (◌∷◌ (reply_of x.method x.reply)) (calls-answered late (suc n) xs after hs))
