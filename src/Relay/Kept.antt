-- ===== src/Relay/Kept.antt =====
-- packages/fleet-room/relay.mjs: what each part of a handler does to a pending request.
use fleet_for_agent.Base.{
  ℕ, ◌≡◌, ◌≢◌, subst, inl, inr, ◌⊎◌, String, Bool, true, false, ◌||◌, Option, none, some, List, [],
  ◌∷◌, ◌++◌, any, arith, Bool-cases, Result-cases,
}
use fleet_for_agent.Base.Eq.{◌==◌, ==_iff, nat_eq, string_eq}
use fleet_for_agent.Base.Assoc.{Assoc, lookup, set, remove, lookup-remove, lookup-set}
use fleet_for_agent.Relay.{
  Meta, Connection, Relay, Effect, closed, Done, Clock, also, RelayCode, detach, is_fresh,
  prune_each, prune, attach_pruned,
}
use fleet_for_agent.Relay.Frames.{
  Frame, ping, result_ok, result_error, call, other, unparsed, close_socket, serve_frame, settle,
  touch, call_dispatch, send_request,
}
use fleet_for_agent.Relay.Steps.{
  attach_result, down_found, received_found, serve_found, drop_connection, close_each, time_out,
}
use fleet_for_agent.Relay.Soundness.{IsRelay, detach-IsRelay, lookup-keep_pending}
use fleet_for_agent.Relay.{lost, rejected, resolved}

abbrev pub settles : String → Effect → Bool
settles id (rejected i code) = i == id
settles id (resolved i) = i == id
settles id _ = false

-- The request is still pending on its connection, or it has been answered.
abbrev pub Kept : String → ℕ → Done → Type 0
Kept id k done = (lookup id done.0.pending ≡ some k) ⊎ (any (settles id) done.1 ≡ true)

any-append : (p : Effect → Bool) (xs ys : List Effect) → any p (xs ++ ys) ≡ (any p xs || any p ys)
any-append p [] ys = ground arith
any-append p (x ∷ xs) ys = ground (arith, any-append p xs ys)

also-Kept :
    (id : String) (k : ℕ) (before : List Effect) (done : Done)
    → Kept id k done
    → Kept id k (also before done)
also-Kept id k before done h = ground (arith, h, any-append (settles id) before done.1)

lost-settles :
    (id : String) (key : ℕ) (m : Assoc String ℕ)
    → lookup id m ≡ some key
    → any (settles id) (lost key m) ≡ true
unfolding lost lookup
lost-settles id key [] h = cc h
lost-settles id key ((i, k) ∷ m) h =
    ground (arith, lost-settles id key m, h, ==_iff i id, ==_iff k key)

module _ (id : String) (k : ℕ) where
  pub detach-Kept :
      (key : ℕ) (r : Relay)
      → IsRelay false r
      → lookup id r.pending ≡ some k
      → Kept id k (detach key r)
  unfolding detach
  detach-Kept key r v h = elim (Bool-cases (k == key)) [
    | inl lost_one ↦
        let mine : k ≡ key = (==_iff k key).0 lost_one in
        inr (lost-settles id key r.pending (subst (λ x. lookup id r.pending ≡ some x) mine h))
    | inr kept ↦
        inl (ground (arith, lookup-keep_pending key id r.pending v.distinct_pending, h, kept))
  ]

  prune_each-Kept :
      (now : Clock) (m : Assoc ℕ Connection) (r : Relay)
      → IsRelay false r
      → lookup id r.pending ≡ some k
      → Kept id k (prune_each now m r)
  unfolding prune_each
  prune_each-Kept now [] r v h = inl h
  prune_each-Kept now ((key, c) ∷ m) r v h = elim (Bool-cases (is_fresh (now key) c)) [
    | inl up ↦ rw up (prune_each-Kept now m r v h)
    | inr gone ↦ rw gone (elim (detach-Kept key r v h) [
      | inl still ↦
          also-Kept id k ((detach key r).1 ++ closed key ∷ []) (prune_each now m (detach key r).0)
            (prune_each-Kept now m (detach key r).0 (detach-IsRelay r v key) still)
      | inr answered ↦
          let whole = any-append (settles id) (detach key r).1 (closed key ∷ []) in
          let more =
            any-append (settles id) ((detach key r).1 ++ closed key ∷ [])
              (prune_each now m (detach key r).0).1 in
          inr (ground (arith, answered, whole, more))
    ])
  ]

  -- What holds of two stretches, one after the other.
  pub then-Kept :
      (first second : Done)
      → Kept id k first
      → (lookup id first.0.pending ≡ some k → Kept id k second)
      → Kept id k (also first.1 second)
  then-Kept first second p q = elim p [
    | inl still ↦ also-Kept id k first.1 second (q still)
    | inr answered ↦ inr (ground (arith, answered, any-append (settles id) first.1 second.1))
  ]

  pub prune-Kept :
      (now : Clock) (r : Relay)
      → IsRelay false r
      → lookup id r.pending ≡ some k
      → Kept id k (prune now r)
  unfolding prune
  prune-Kept now r v h = prune_each-Kept now r.connections r v h

  settle-Kept :
      (key : ℕ) (i : String) (effect : Effect) (o : Option ℕ) (r : Relay)
      → settles i effect ≡ true
      → lookup id r.pending ≡ some k
      → Kept id k (settle key i effect o r)
  unfolding settle
  settle-Kept key i effect none r e h = inl h
  settle-Kept key i effect (some owner) r e h = elim (Bool-cases (owner == key)) [
    | inr other_owner ↦ rw other_owner (inl h)
    | inl mine ↦ rw mine (elim (Bool-cases (i == id)) [
      | inl same ↦
          let at : i ≡ id = (==_iff i id).0 same in
          let now : settles id effect ≡ true = subst (λ x. settles x effect ≡ true) at e in
          inr (ground (arith, now))
      | inr away ↦ inl (ground (arith, lookup-remove i id r.pending, away, h))
    ])
  ]

  serve_frame-Kept :
      (key now : ℕ) (c : Connection) (f : Frame) (r : Relay)
      → lookup id r.pending ≡ some k
      → Kept id k (serve_frame key now c f r)
  unfolding serve_frame touch close_socket
  serve_frame-Kept key now c (ping running) r h = inl h
  serve_frame-Kept key now c (result_ok i) r h =
      settle-Kept key i (resolved i) (lookup i r.pending) (touch key now c r)
        (ground (arith, ==_iff i i)) h
  serve_frame-Kept key now c (result_error i) r h =
      settle-Kept key i (rejected i RelayCode.leader_error) (lookup i r.pending) (touch key now c r)
        (ground (arith, ==_iff i i)) h
  serve_frame-Kept key now c (call f) r h = inl (ground (arith, h))
  serve_frame-Kept key now c other r h = inl h
  serve_frame-Kept key now c unparsed r h = inl h

  pub serve_found-Kept :
      (key now : ℕ) (f : Frame) (o : Option Connection) (r : Relay)
      → lookup id r.pending ≡ some k
      → Kept id k (serve_found key now f o r)
  unfolding serve_found
  serve_found-Kept key now f none r h = inl h
  serve_found-Kept key now f (some c) r h = ground (arith, serve_frame-Kept key now c f r h, h)

  pub down_found-Kept :
      (key : ℕ) (o : Option Connection) (r : Relay)
      → lookup id r.pending ≡ some k
      → Kept id k (down_found key o r)
  unfolding down_found close_socket
  down_found-Kept key none r h = inl h
  down_found-Kept key (some c) r h = inl h

  pub received_found-Kept :
      (key bytes : ℕ) (o : Option Connection) (r : Relay)
      → lookup id r.pending ≡ some k
      → Kept id k (received_found key bytes o r)
  unfolding received_found close_socket
  received_found-Kept key bytes none r h = inl h
  received_found-Kept key bytes (some c) r h = inl (ground (arith, h))

  pub drop-Kept :
      (key : ℕ) (r : Relay)
      → IsRelay false r
      → lookup id r.pending ≡ some k
      → Kept id k (drop_connection key r)
  unfolding drop_connection
  drop-Kept key r v h = elim (detach-Kept key r v h) [
    | inl still ↦ inl still
    | inr answered ↦ inr (ground (arith, answered))
  ]

  pub close_each-Kept :
      (m : Assoc ℕ Connection) (r : Relay)
      → IsRelay false r
      → lookup id r.pending ≡ some k
      → Kept id k (close_each m r)
  unfolding close_each drop_connection
  close_each-Kept [] r v h = inl h
  close_each-Kept ((key, c) ∷ m) r v h =
      then-Kept (drop_connection key r) (close_each m (drop_connection key r).0)
        (drop-Kept key r v h) (close_each-Kept m (drop_connection key r).0 (detach-IsRelay r v key))

  pub time_out-Kept :
      (i : String) (o : Option ℕ) (r : Relay)
      → lookup id r.pending ≡ some k
      → Kept id k (time_out i o r)
  unfolding time_out
  time_out-Kept i none r h = inl h
  time_out-Kept i (some key) r h = elim (Bool-cases (i == id)) [
    | inl same ↦ inr (ground (arith, same))
    | inr away ↦ inl (ground (arith, lookup-remove i id r.pending, away, h))
  ]

  pub attach-Kept :
      (m : Meta) (now : ℕ) (pruned : Done)
      → Kept id k pruned
      → Kept id k (attach_result pruned (attach_pruned m now pruned.0))
  unfolding attach_pruned
  attach-Kept m now pruned h = elim (Result-cases (attach_pruned m now pruned.0)) [
    | inr (code, e) ↦ rw e h
    | inl (joined, e) ↦
        let pending : joined.0.pending ≡ pruned.0.pending = ground (arith, e) in
        rw e (
          ground (arith, h, pending, any-append (settles id) pruned.1 (Effect.ready joined.1 ∷ [])))
  ]

  send_request-Kept :
      (key : ℕ) (i : String) (bytes : ℕ) (sends : Bool) (r : Relay)
      → i ≢ id
      → lookup id r.pending ≡ some k
      → Kept id k (send_request key i bytes sends r)
  unfolding send_request
  send_request-Kept key i bytes sends r fresh h =
      let other : (i == id) ≡ false = ground (arith, ==_iff i id, fresh) in
      let there : lookup id (set i key r.pending) ≡ some k =
        ground (arith, lookup-set i id key r.pending, other, h) in
      let left : lookup id (remove i (set i key r.pending)) ≡ some k =
        ground (arith, lookup-remove i id (set i key r.pending), other, there) in
      ground (arith, h, there, left)

  pub dispatch-Kept :
      (key : ℕ) (i : String) (bytes : ℕ) (sends : Bool) (again : Clock) (r : Relay)
      → i ≢ id
      → IsRelay false r
      → lookup id r.pending ≡ some k
      → Kept id k (call_dispatch key i bytes sends again r)
  unfolding call_dispatch
  dispatch-Kept key i bytes sends again r fresh v h =
      let sent =
        then-Kept (prune again r) (send_request key i bytes sends (prune again r).0)
          (prune-Kept again r v h) (send_request-Kept key i bytes sends (prune again r).0 fresh) in
      ground (arith, sent, h)
