-- ===== src/Engine/Handles.antt =====
-- `connect` closes the handle that it opened, or hands it over.
use quiczilla.Prelude.{
  ℕ, ◌+◌, ◌≡◌, Bool, true, false, Option, none, some, List, [], ◌∷◌, ok, err, arith, if◌then◌else◌,
  if_holds, ◌==◌,
}
use quiczilla.Engine.{
  Call, connection_open, set_local_address, connection_start, connection_close, Wait, answered,
  lost, dropped, Answers, Connect, connection, connect_error, behind, await_answer,
  start_connection, bind_local, connect, api_unavailable, open_failed, is_quic_success_or_pending,
}

abbrev pub closes : List Call → ℕ
closes [] = 0
closes (connection_close ∷ calls) = 1 + closes calls
closes (_ ∷ calls) = closes calls

-- How many handles a call of `connect` has got.
abbrev pub opens : Answers → ℕ
opens a = if a.api then (if a.open_status == 0 then 1 else 0) else 0

-- How many it returns.
abbrev pub returned : Connect → ℕ
returned connection = 1
returned _ = 0

abbrev Balanced : ℕ → Connect × List Call → Type 0
Balanced n (c, calls) = n ≡ returned c + closes calls

await_answer-Balanced : (w : Wait) → Balanced 1 (await_answer w)
await_answer-Balanced (answered (ok u)) = omega arith
await_answer-Balanced (answered (err reason)) = omega arith
await_answer-Balanced lost = omega arith
await_answer-Balanced dropped = omega arith

start_connection-Balanced : (a : Answers) → Balanced 1 (start_connection a)
start_connection-Balanced a =
    if_holds (Balanced 1) a.host_is_c_string _ _
      (λ h.
        if_holds (λ (r : Connect × List Call). Balanced 1 (behind connection_start r))
          (is_quic_success_or_pending a.start_status) _ _ (λ s. await_answer-Balanced a.wait)
          (λ s. omega arith))
      (λ h. omega arith)

bind_local-Balanced : (o : Option ℕ) (a : Answers) → Balanced 1 (bind_local o a)
bind_local-Balanced none a = omega arith
bind_local-Balanced (some status) a =
    if_holds (λ (r : Connect × List Call). Balanced 1 (behind set_local_address r)) (status == 0) _
      _ (λ s. start_connection-Balanced a) (λ s. omega arith)

opened-Balanced :
    (is_open bind : Bool) (x y failed : Connect × List Call)
    → Balanced 1 x
    → Balanced 1 y
    → Balanced 0 failed
    → Balanced (if is_open then 1 else 0) (if is_open then (if bind then x else y) else failed)
opened-Balanced true true x y failed h k l = h
opened-Balanced true false x y failed h k l = k
opened-Balanced false bind x y failed h k l = l

behind-Balanced :
    (api : Bool) (n : ℕ) (r unavailable : Connect × List Call)
    → Balanced n r
    → Balanced 0 unavailable
    → Balanced (if api then n else 0) (if api then behind connection_open r else unavailable)
behind-Balanced true n r unavailable h l = h
behind-Balanced false n r unavailable h l = l

-- Whatever the library answers, and also when the future is dropped while it waits: each handle that a
-- call of `connect` has opened is closed once, or else returned, never both.
pub connect-closes :
    (a : Answers) → let (end, calls) = connect a in opens a ≡ returned end + closes calls
unfolding connect
connect-closes a =
    behind-Balanced a.api (if a.open_status == 0 then 1 else 0) _
      (connect_error api_unavailable, [])
      (opened-Balanced (a.open_status == 0) a.local_bind (bind_local a.set_param a)
        (start_connection a) (connect_error open_failed, []) (bind_local-Balanced a.set_param a)
        (start_connection-Balanced a) (omega arith))
      (omega arith)
