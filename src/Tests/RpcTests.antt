-- ===== src/Tests/RpcTests.antt =====
-- Tests of the calls to the app-server.
use chatta.Prelude.{◌≡◌, refl, inl, inr, none, List, [], ◌∷◌, arith}
use chatta.Text.Basic.{Text, codes, eq_text}
use chatta.Text.Number.{decimal}
use chatta.Services.Control.{done, refused}
use chatta.Services.Codex.Client.{other, answered, failed}
use chatta.Services.Codex.Rpc.{
  RpcMessage, is_reply, await_reply, call_dispatched, calls, Exchange, conversation, calls-answered,
}

digits_of_a_number : decimal 6670 ≡ codes "6670"
unfolding decimal
digits_of_a_number = refl

abbrev message : Text → Text → RpcMessage Text
message id result = record { id = id; error = none; result = done result }

-- A notification before the first answer, and the late answer to call 2 before that to call 4.
abbrev inspection : List (Exchange Text)
inspection =
    (record {
      method = codes "thread/read";
      between = message [] (codes "turn/started") ∷ [];
      reply = message [] (codes "idle");
    })
    ∷ (record {
      method = codes "thread/turns/list";
      between = message (codes "2") (codes "late") ∷ [];
      reply = record (message [] []) { result = refused (codes "no object") };
    })
    ∷ []

two : codes "2" ≡ decimal 2
unfolding decimal
two = refl

calls-answered_example :
    calls
      (codes "timeout")
      (codes "thread/read" ∷ codes "thread/turns/list" ∷ [])
      (record { next = 2; incoming = conversation 2 inspection [] })
    ≡ answered (codes "idle") ∷ failed (other (codes "no object")) ∷ []
calls-answered_example =
    calls-answered (codes "timeout") 2 inspection []
      ((inl refl, tt), ((inr (2, omega arith, two), tt), tt))

-- When no message is its answer, a call fails at the end of its time.
unanswered :
    (call_dispatched
      (codes "timeout")
      (codes "thread/read")
      none
      (record { next = 2; incoming = inr (message (codes "2") (codes "late")) ∷ [] })).1
    ≡ failed (other (codes "timeout"))
unfolding call_dispatched await_reply is_reply decimal eq_text
unanswered = refl
