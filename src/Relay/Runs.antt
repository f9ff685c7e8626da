-- ===== src/Relay/Runs.antt =====
-- packages/fleet-room/relay.mjs: the events of RoomRelay, and runs of them.
use fleet_for_agent.Base.{
  ℕ, ◌<◌, ◌≡◌, ◌∙◌, refl, sym, subst, inl, inr, String, Bool, true, false, Option, none, some, List,
  [], ◌∷◌, any, length, ltb, leb, if◌then◌else◌, arith, Bool-cases, Option-cases,
}
use fleet_for_agent.Base.Eq.{◌==◌, nat_eq, string_eq}
use fleet_for_agent.Base.Assoc.{Assoc, lookup}
use fleet_for_agent.Base.Text.{utf16_length}
use fleet_for_agent.Relay.{
  frame_limit, Meta, Connection, Relay, Effect, Clock, prune, same_runtime, attach_pruned,
  max_connections, max_pending,
}
use fleet_for_agent.Relay.Frames.{
  Frame, ping, result_ok, result_error, call, other, unparsed, close_socket, serve_frame, settle,
  touch, call_dispatch, send_request, is_live, running_after,
}
use fleet_for_agent.Relay.Steps.{
  Event, attached, went_down, went_away, received, authorized, call_asked, call_refused, call_sent,
  timed_out, shut_down, attach_result, down_found, received_found, serve_found, drop_connection,
  close_each, time_out, step,
}
use fleet_for_agent.Relay.Soundness.{
  Home, IsRelay, detach-IsRelay, prune-IsRelay, prune_lem, update-IsRelay,
}
use fleet_for_agent.Relay.Joining.{settled-IsRelay, sent-IsRelay, unsent-IsRelay, joined-IsRelay}

settle-IsRelay :
    {strict : Bool} (key : ℕ) (id : String) (effect : Effect) (o : Option ℕ) (r : Relay)
    → IsRelay strict r
    → IsRelay strict (settle key id effect o r).0
unfolding settle
settle-IsRelay key id effect none r v = v
settle-IsRelay key id effect (some owner) r v = elim (Bool-cases (owner == key)) [
  | inl mine ↦ rw mine (settled-IsRelay r v id)
  | inr other_owner ↦ rw other_owner v
]

module _ {strict : Bool} (key now : ℕ) (c : Connection) (r : Relay) (v : IsRelay strict r)
    (there : lookup key r.connections ≡ some c) where
  touch-IsRelay : IsRelay strict (touch key now c r)
  unfolding touch
  touch-IsRelay = update-IsRelay r v key c (record c { seen = now }) there refl (λ l. l)

  close-IsRelay : (d : Connection) → d.info ≡ c.info → IsRelay strict (close_socket key d r).0
  unfolding close_socket
  close-IsRelay d same = update-IsRelay r v key c (record d { live = false }) there same (λ l. cc l)

  serve_frame-IsRelay : (f : Frame) → IsRelay strict (serve_frame key now c f r).0
  unfolding serve_frame
  serve_frame-IsRelay (ping running) =
      update-IsRelay r v key c (record c { seen = now; running = running_after c running }) there
        refl (λ l. l)
  serve_frame-IsRelay (result_ok id) =
      settle-IsRelay key id _ (lookup id r.pending) (touch key now c r) touch-IsRelay
  serve_frame-IsRelay (result_error id) =
      settle-IsRelay key id _ (lookup id r.pending) (touch key now c r) touch-IsRelay
  serve_frame-IsRelay (call f) = elim (Bool-cases (ltb 100 (utf16_length f.id))) [
    | inl long ↦ rw long (close-IsRelay (record c { seen = now }) refl)
    | inr short ↦ rw short touch-IsRelay
  ]
  serve_frame-IsRelay other = close-IsRelay (record c { seen = now }) refl
  serve_frame-IsRelay unparsed = close-IsRelay c refl

down_found-IsRelay :
    {strict : Bool} (key : ℕ) (r : Relay)
    → IsRelay strict r
    → (o : Option Connection) → lookup key r.connections ≡ o
    → IsRelay strict (down_found key o r).0
unfolding down_found
down_found-IsRelay key r v none e = v
down_found-IsRelay key r v (some c) e = close-IsRelay key 0 c r v e c refl

received_found-IsRelay :
    {strict : Bool} (key bytes : ℕ) (r : Relay)
    → IsRelay strict r
    → (o : Option Connection) → lookup key r.connections ≡ o
    → IsRelay strict (received_found key bytes o r).0
unfolding received_found
received_found-IsRelay key bytes r v none e = v
received_found-IsRelay key bytes r v (some c) e = elim (Bool-cases (ltb frame_limit bytes)) [
  | inl large ↦ rw large (close-IsRelay key 0 c r v e c refl)
  | inr fits ↦ rw fits v
]

serve_found-IsRelay :
    {strict : Bool} (key now : ℕ) (f : Frame) (r : Relay)
    → IsRelay strict r
    → (o : Option Connection) → lookup key r.connections ≡ o
    → IsRelay strict (serve_found key now f o r).0
unfolding serve_found
serve_found-IsRelay key now f r v none e = v
serve_found-IsRelay {strict} key now f r v (some c) e = elim (Bool-cases c.live) [
  | inl up ↦ subst after (sym up) (serve_frame-IsRelay key now c r v e f)
  | inr down ↦ subst after (sym down) v
]
  where
    after : Bool → Type 0
    after b = IsRelay strict (if b then serve_frame key now c f r else (r, [])).0

attach-IsRelay :
    {strict : Bool} (m : Meta) (now : ℕ) (r : Relay)
    → IsRelay strict r
    → (effects : List Effect)
    → IsRelay strict (attach_result (r, effects) (attach_pruned m now r)).0
unfolding attach_pruned
attach-IsRelay m now r v effects = elim (Bool-cases (leb max_connections (length r.connections))) [
  | inl full ↦ rw full v
  | inr roomy ↦ elim (Bool-cases (any (λ e. same_runtime m e.1) r.connections)) [
    | inl taken ↦ rw roomy (rw taken v)
    | inr alone ↦ rw roomy (rw alone (joined-IsRelay r v m now (ground (arith, roomy)) alone))
  ]
]

send_request-IsRelay :
    {strict : Bool} (key : ℕ) (id : String) (bytes : ℕ) (sends : Bool) (r : Relay)
    → IsRelay strict r
    → length r.pending < 128
    → (sends ≡ true → Home strict key r)
    → IsRelay strict (send_request key id bytes sends r).0
unfolding send_request
send_request-IsRelay key id bytes sends r v few home = elim (Bool-cases (ltb frame_limit bytes)) [
  | inl large ↦ rw large v
  | inr fits ↦ elim (Bool-cases sends) [
    | inl taken ↦ rw (fits, taken) (sent-IsRelay r v id key (home taken) few)
    | inr thrown ↦ rw (fits, thrown) (unsent-IsRelay r v id key few)
  ]
]

live-Home :
    {strict : Bool} (s : Bool) (key : ℕ) (again : Clock) (r : Relay)
    → IsRelay strict r
    → is_live (lookup key r.connections) ≡ true
    → (s ≡ true → lookup key (prune again r).0.connections ≡ lookup key r.connections)
    → Home s key (prune again r).0
live-Home s key again r v up stays = elim (Option-cases (lookup key r.connections)) [
  | inl absent ↦ cc (rw absent at up)
  | inr (c, there) ↦ home s c there stays
]
  where
    home :
        (s : Bool) (c : Connection)
        → lookup key r.connections ≡ some c
        → (s ≡ true → lookup key (prune again r).0.connections ≡ lookup key r.connections)
        → Home s key (prune again r).0
    home true c there stays = (c, stays refl ∙ there)
    home false c there stays = omega (arith, v.named key c there, (prune_lem again r).0)

dispatch-IsRelay :
    {strict : Bool} (key : ℕ) (id : String) (bytes : ℕ) (sends : Bool) (again : Clock) (r : Relay)
    → IsRelay strict r
    → (strict ≡ true → lookup key (prune again r).0.connections ≡ lookup key r.connections)
    → IsRelay strict (call_dispatch key id bytes sends again r).0
unfolding call_dispatch
dispatch-IsRelay {strict} key id bytes sends again r v stays =
    elim (Bool-cases (is_live (lookup key r.connections))) [
      | inr down ↦ rw down v
      | inl up ↦ elim (Bool-cases (leb max_pending (length r.pending))) [
        | inl full ↦ rw (up, full) v
        | inr roomy ↦
            let few : length (prune again r).0.pending < 128 =
              ground (arith, roomy, (prune_lem again r).1) in
            rw (up, roomy)
              (send_request-IsRelay key id bytes sends (prune again r).0 (prune-IsRelay again r v)
                few (λ taken. live-Home strict key again r v up stays))
      ]
    ]

drop-IsRelay :
    {strict : Bool} (key : ℕ) (r : Relay)
    → IsRelay strict r
    → IsRelay strict (drop_connection key r).0
unfolding drop_connection
drop-IsRelay key r v = detach-IsRelay r v key

close_each-IsRelay :
    {strict : Bool} (m : Assoc ℕ Connection) (r : Relay)
    → IsRelay strict r
    → IsRelay strict (close_each m r).0
unfolding close_each
close_each-IsRelay [] r v = v
close_each-IsRelay ((key, c) ∷ m) r v =
    close_each-IsRelay m (drop_connection key r).0 (drop-IsRelay key r v)

time_out-IsRelay :
    {strict : Bool} (id : String) (o : Option ℕ) (r : Relay)
    → IsRelay strict r
    → IsRelay strict (time_out id o r).0
unfolding time_out
time_out-IsRelay id none r v = v
time_out-IsRelay id (some key) r v = settled-IsRelay r v id

-- The pruning within a dispatch leaves the connection that it has just tested.
abbrev pub IsSteady : Event → Relay → Type 0
IsSteady (call_sent now again key id bytes sends) r =
    lookup key (prune again (prune now r).0).0.connections ≡ lookup key (prune now r).0.connections
IsSteady _ r = Unit {0}

pub step-IsRelay :
    {strict : Bool} (e : Event) (r : Relay)
    → IsRelay strict r
    → (strict ≡ true → IsSteady e r)
    → IsRelay strict (step e r).0
unfolding step
step-IsRelay (attached m now seen) r v steady =
    attach-IsRelay m seen (prune now r).0 (prune-IsRelay now r v) (prune now r).1
step-IsRelay (went_down key) r v steady = down_found-IsRelay key r v (lookup key r.connections) refl
step-IsRelay (went_away key) r v steady = detach-IsRelay r v key
step-IsRelay (received key bytes now) r v steady =
    received_found-IsRelay key bytes (prune now r).0 (prune-IsRelay now r v) _ refl
step-IsRelay (authorized key granted now frame) r v steady = elim (Bool-cases granted) [
  | inl granted_now ↦ rw granted_now (serve_found-IsRelay key now frame r v _ refl)
  | inr revoked ↦ rw revoked (drop-IsRelay key r v)
]
step-IsRelay (call_asked now leader_id action) r v steady = prune-IsRelay now r v
step-IsRelay (call_refused key) r v steady = drop-IsRelay key r v
step-IsRelay (call_sent now again key id bytes sends) r v steady =
    dispatch-IsRelay key id bytes sends again (prune now r).0 (prune-IsRelay now r v) steady
step-IsRelay (timed_out id) r v steady = time_out-IsRelay id (lookup id r.pending) r v
step-IsRelay shut_down r v steady = close_each-IsRelay r.connections r v

-- The relay after some events, in any order.
unfoldable pub run : List Event → Relay → Relay
unfolding step
run [] r = r
run (e ∷ events) r = run events (step e r).0

-- Whatever happens at the Room relay, in any order, every pending request went to a connection
-- that was attached at some time, at most 128 are pending and at most 128 attached, and no two
-- live runtimes have one id (`IsRelay` without `strict`), where that held before.
pub run-IsRelay : (events : List Event) (r : Relay) → IsRelay false r → IsRelay false (run events r)
unfolding run
run-IsRelay [] r v = v
run-IsRelay (e ∷ events) r v =
    run-IsRelay events (step e r).0 (step-IsRelay e r v (λ strict. cc strict))

-- Each pruning within a dispatch leaves the connection that it has just tested.
abbrev pub AreSteady : List Event → Relay → Type 0
AreSteady [] r = Unit {0}
AreSteady (e ∷ events) r = IsSteady e r × AreSteady events (step e r).0

-- In a run of the Room relay in which each pruning within a dispatch leaves the connection that
-- it has just tested (`AreSteady`), every pending request belongs to a connection that is
-- attached, at most 128 are pending and at most 128 attached, and no two live runtimes have one
-- id (`IsRelay` with `strict`), where that held before.
pub run-IsRelay_steady :
    (events : List Event) (r : Relay)
    → AreSteady events r
    → IsRelay true r
    → IsRelay true (run events r)
unfolding run
run-IsRelay_steady [] r steady v = v
run-IsRelay_steady (e ∷ events) r steady v =
    run-IsRelay_steady events (step e r).0 steady.1 (step-IsRelay e r v (λ strict. steady.0))
