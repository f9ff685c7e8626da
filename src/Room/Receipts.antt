-- ===== src/Room/Receipts.antt =====
-- packages/fleet-worker/src/room-tasks.mjs, localRoomControl: requests whose id was served before.
use fleet_for_agent.Base.{
  ℕ, ◌+◌, ◌≡◌, ◌≢◌, refl, sym, ap, subst, ◌∙◌, inl, inr, true, false, Option, none, some,
  Bool-cases, ok, err, >>=-eq-ok, or_else, ok-injective,
}
use fleet_for_agent.Base.Eq.{string_eq, pair_eq}
use fleet_for_agent.Base.Assoc.{lookup, lookup-put_self}
use fleet_for_agent.Room.Types.{
  Principal, Room, Request, Receipt, Reply, Fingerprint, Code, Try, idempotency_conflict,
}
use fleet_for_agent.Base.Keys.{pair_before}
use fleet_for_agent.Room.Ledger.{Ledger, put_request, put_usage}
use fleet_for_agent.Room.Control.{
  serve_change, serve_fresh, serve_after, same_fingerprint, same_fingerprint_refl,
  Fingerprint-discrete, fingerprint_of, admit, no_usage,
}

same_fingerprint-true : (f g : Fingerprint) → same_fingerprint f g ≡ true → f ≡ g
unfolding same_fingerprint
same_fingerprint-true f g h = decided (Fingerprint-discrete f g) h
  where
    decided : (d : Dec (f ≡ g)) → elim d [ yes _ ↦ true | no _ ↦ false ] ≡ true → f ≡ g
    decided (yes e) t = e
    decided (no differ) t = cc t

same_fingerprint-false : (f g : Fingerprint) → f ≢ g → same_fingerprint f g ≡ false
same_fingerprint-false f g differ = elim (Bool-cases (same_fingerprint f g)) [
  | inl same ↦ absurd (differ (same_fingerprint-true f g same))
  | inr e ↦ e
]

module _ (l : Ledger) (principal : Principal) (room : Room) (request : Request) (now : ℕ) where
  abbrev receipt_of : Reply → Receipt
  receipt_of reply = record { fingerprint = fingerprint_of principal request; result = reply }

  fresh_receipt :
      (r : Reply × Ledger)
      → serve_fresh l principal room request now ≡ ok r
      → lookup (room.id, request.request_id) r.1.requests ≡ some (receipt_of r.0)
  unfolding serve_fresh put_request
  fresh_receipt r h =
      let usage = or_else (lookup room.id l.usages) no_usage in
      let (_, _, h1) = >>=-eq-ok (admit l room request.change now usage) _ h in
      let (done, e, h2) =
        >>=-eq-ok (serve_change l principal room request.request_id now usage request.change) _
          h1 in
      let same = ok-injective {E = Code} _ r h2 in
      subst (λ x. lookup (room.id, request.request_id) x.1.requests ≡ some (receipt_of x.0)) same
        (lookup-put_self pair_before (room.id, request.request_id) (receipt_of done.reply)
          (put_usage room.id (record done.usage { request_count = done.usage.request_count + 1 })
            done.ledger).requests)

  served_receipt :
      (o : Option Receipt) (r : Reply × Ledger)
      → lookup (room.id, request.request_id) l.requests ≡ o
      → serve_after l principal room request now o ≡ ok r
      → lookup (room.id, request.request_id) r.1.requests ≡ some (receipt_of r.0)
  unfolding serve_after
  served_receipt none r stored h = fresh_receipt r h
  served_receipt (some existing) r stored h =
      elim (Bool-cases (same_fingerprint existing.fingerprint (fingerprint_of principal request))) [
        | inl same ↦
            let answer = ok-injective {E = Code} (existing.result, l) r (rw same at h) in
            let whose =
              same_fingerprint-true existing.fingerprint (fingerprint_of principal request) same in
            let receipt : existing ≡ receipt_of existing.result = cc whose in
            subst (λ x. lookup (room.id, request.request_id) x.1.requests ≡ some (receipt_of x.0))
              answer (stored ∙ ap some receipt)
        | inr differs ↦ cc (rw differs at h)
      ]

again :
    (l : Ledger) (principal : Principal) (room : Room) (request : Request) (now : ℕ)
    (existing : Receipt)
    → existing.fingerprint ≡ fingerprint_of principal request
    → serve_after l principal room request now (some existing) ≡ ok (existing.result, l)
unfolding serve_after
again l principal room request now existing whose =
    rw (whose, same_fingerprint_refl (fingerprint_of principal request)) refl

other_conflicts :
    (l : Ledger) (principal : Principal) (room : Room) (request : Request) (now : ℕ)
    (existing : Receipt)
    → existing.fingerprint ≢ fingerprint_of principal request
    → serve_after l principal room request now (some existing) ≡ err idempotency_conflict
unfolding serve_after
other_conflicts l principal room request now existing differ =
    rw (same_fingerprint-false existing.fingerprint (fingerprint_of principal request) differ) refl

abbrev pub serve : Ledger → Principal → Room → Request → ℕ → Try (Reply × Ledger)
serve l principal room request now =
    serve_after l principal room request now (lookup (room.id, request.request_id) l.requests)

-- A request that was served with some reply is, when the same caller sends it again to the store
-- that it left, at any time, served with the same reply, and the store stays as it is.
pub serve_again :
    (l : Ledger) (principal : Principal) (room : Room) (request : Request) (now later : ℕ)
    (r : Reply × Ledger)
    → serve l principal room request now ≡ ok r
    → serve r.1 principal room request later ≡ ok r
serve_again l principal room request now later r h =
    let stored = served_receipt l principal room request now _ r refl h in
    rw stored
      (again r.1 principal room request later (receipt_of l principal room request now r.0) refl)

-- After a request was served, a request of the same id in the same Room that differs from it, or
-- that another caller sends, is refused with idempotency_conflict.
pub serve_other :
    (l : Ledger) (principal : Principal) (room : Room) (request : Request) (now later : ℕ)
    (r : Reply × Ledger) (caller : Principal) (other : Request)
    → serve l principal room request now ≡ ok r
    → other.request_id ≡ request.request_id
    → fingerprint_of principal request ≢ fingerprint_of caller other
    → serve r.1 caller room other later ≡ err idempotency_conflict
serve_other l principal room request now later r caller other h same differ =
    let stored = served_receipt l principal room request now _ r refl h in
    let found =
      subst
        (λ i. lookup (room.id, i) r.1.requests ≡ some (receipt_of l principal room request now r.0))
        (sym same) stored in
    rw found (
      other_conflicts r.1 caller room other later (receipt_of l principal room request now r.0)
        differ)
