-- ===== src/Policy/Blocked.antt =====
-- What the policy lets through, by the rules.
use melodi.Slots.Keyed.{rule}
use melodi.Slots.{first}
use melodi.Policy.{
  Policy, PolicyMode, PeerState, ServiceAction, check, check_service, check_message, is_blocked,
  is_trusted, is_deny, PolicyService, entry_is, requires_trust, trusted, authenticated, conflicted,
  observed, challenged, require_trust, allow_authenticated, blocked, set_peer, service_hit,
}
use melodi.Policy.Lookup.{Rules, view, peers_table, entry_state-rule}
use melodi.Policy.Rules.{
  Command, to_peer, to_clear, to_service, to_broadcast, to_mode, to_reset, to_reverify, step,
  effect, succeeded, IsPolicy,
}
use melodi.Policy.Refinement.{step-Correct}
use melodi.Base.{
  if◌then◌else◌, Bool-cases, ◌>>◌, Result, All, same_bytes, same_bytes_refl, ok, err, eacces, ℕ,
  ◌≡◌, refl, ap, ◌∙◌, inl, inr, Bool, true, false, not, ◌&&◌, Option, none, some, List, [], ◌∷◌,
  arith,
}

-- Whether a peer may be heard and spoken to.
unfoldable pub peer_permitted : PolicyMode → Option PeerState → Bool
peer_permitted allow_authenticated (some state) = not (is_blocked state)
peer_permitted allow_authenticated none = true
peer_permitted require_trust (some state) = is_trusted state
peer_permitted require_trust none = false

unfoldable pub is_denied : Option ServiceAction → Bool
is_denied (some action) = is_deny action
is_denied none = false

unfoldable pub permitted : Rules → List ℕ → ℕ → Bool → Bool
permitted r node service broadcast =
    (if broadcast then r.broadcast_allowed else peer_permitted r.mode (r.peer node))
    && not (is_denied (r.service service))

abbrev pub decided : Bool → Result (Unit {0})
decided allowed = if allowed then ok tt else err eacces

by_case :
    (mode : PolicyMode) (entry : Option PeerState)
    → (if entry_is is_blocked entry
        then err eacces
        else if requires_trust mode && not (entry_is is_trusted entry)
        then err eacces
        else ok tt)
      ≡ decided (peer_permitted mode entry)
unfolding entry_is requires_trust peer_permitted is_blocked is_trusted
by_case allow_authenticated none = refl
by_case require_trust none = refl
by_case allow_authenticated (some state) = ground arith
by_case require_trust (some blocked) = refl
by_case require_trust (some trusted) = refl
by_case require_trust (some authenticated) = refl
by_case require_trust (some conflicted) = refl
by_case require_trust (some observed) = refl
by_case require_trust (some challenged) = refl

check-decided :
    (d : Policy) (node : List ℕ)
    → check d node ≡ decided (peer_permitted d.mode ((view d).peer node))
unfolding check view
check-decided d node =
    rw (check, entry_state-rule d node) (by_case d.mode (rule peers_table node d.policy_peers))

service_case :
    (broadcast allowed : Bool) (entry : Option PolicyService)
    → (if broadcast && not allowed
        then err eacces
        else elim entry [ some e ↦ if is_deny e.action then err eacces else ok tt | none ↦ ok tt ])
      ≡ decided (
          (if broadcast then allowed else true)
          && not (is_denied (elim entry [ some e ↦ some e.action | none ↦ none ])))
unfolding is_denied
service_case true false entry = refl
service_case true true none = refl
service_case true true (some e) = ground arith
service_case false allowed none = refl
service_case false allowed (some e) = ground arith

check_service-decided :
    (d : Policy) (service : ℕ) (broadcast : Bool)
    → check_service d service broadcast
      ≡ decided (
          (if broadcast then d.broadcast_allowed else true)
          && not (is_denied ((view d).service service)))
unfolding check_service view rule
check_service-decided d service broadcast =
    service_case broadcast d.broadcast_allowed (first (service_hit service) d.policy_services)

both : (a b : Bool) → (decided a >> decided b) ≡ decided (a && b)
both true b = refl
both false b = refl

-- A message passes just when the rules permit it: a broadcast if broadcasts are allowed, a message to
-- a peer if the peer is not blocked and, where trust is required, trusted; either only to a service
-- that is not denied. Otherwise the check returns EACCES.
pub check_message-permitted :
    (d : Policy) (node : List ℕ) (service : ℕ) (broadcast : Bool)
    → check_message d node service broadcast ≡ decided (permitted (view d) node service broadcast)
unfolding check_message permitted view
check_message-permitted d node service true = check_service-decided d service true
check_message-permitted d node service false =
    rw (check_message, check-decided d node, check_service-decided d service false)
      (both (peer_permitted d.mode ((view d).peer node))
        (not (is_denied ((view d).service service))))

-- The requests that say nothing of a node.
unfoldable pub leaves : List ℕ → Command → Bool
leaves node (to_peer other state) = not (same_bytes other node)
leaves node (to_clear other) = not (same_bytes other node)
leaves node (to_service service action) = true
leaves node (to_broadcast allowed) = true
leaves node (to_mode mode) = true
leaves node to_reset = false
leaves node (to_reverify other) = true

leaves-effect :
    (node : List ℕ) (c : Command) (r : Rules)
    → leaves node c ≡ true
    → (effect c r).peer node ≡ r.peer node
unfolding leaves effect
leaves-effect node (to_peer other state) r h = ground arith
leaves-effect node (to_clear other) r h = ground arith
leaves-effect node (to_service service action) r h = refl
leaves-effect node (to_broadcast allowed) r h = refl
leaves-effect node (to_mode mode) r h = refl
leaves-effect node to_reset r h = ground arith
leaves-effect node (to_reverify other) r h = refl

blocked_never : (mode : PolicyMode) → peer_permitted mode (some blocked) ≡ false
unfolding peer_permitted is_blocked is_trusted
blocked_never allow_authenticated = refl
blocked_never require_trust = refl

module _ (key_check : List ℕ → Bool) (announced : Result (Unit {0})) where
  unfoldable pub run : Policy → List Command → Policy
  run d [] = d
  run d (c ∷ cs) = run ((step key_check announced d c).0) cs

  step-peer :
      (d : Policy) (c : Command) (node : List ℕ)
      → IsPolicy d
      → leaves node c ≡ true
      → (view (step key_check announced d c).0).peer node ≡ (view d).peer node
  step-peer d c node v h = elim (Bool-cases (succeeded (step key_check announced d c).2)) [
    | inl done ↦
        ap (λ r. r.peer node) (step-Correct key_check announced d c v).0
        ∙ rw done (leaves-effect node c (view d) h)
    | inr failed ↦ ap (λ r. r.peer node) (step-Correct key_check announced d c v).0 ∙ rw failed refl
  ]

  run-peer :
      (d : Policy) (cs : List Command) (node : List ℕ)
      → IsPolicy d
      → All (λ c. leaves node c ≡ true) cs
      → (view (run d cs)).peer node ≡ (view d).peer node
  unfolding run
  run-peer d [] node v h = refl
  run-peer d (c ∷ cs) node v h =
      run-peer ((step key_check announced d c).0) cs node (step-Correct key_check announced d c v).1
        h.1
      ∙ step-peer d c node v h.0

  -- Once a node is blocked, every message to it is refused with EACCES after any sequence of requests
  -- that neither name the node again nor reset the policy, whatever they make of the mode.
  pub blocked-refused :
      (d : Policy) (node : List ℕ) (cs : List Command) (service : ℕ)
      → IsPolicy d
      → (set_peer key_check d node blocked).2 ≡ ok tt
      → All (λ c. leaves node c ≡ true) cs
      → check_message (run (set_peer key_check d node blocked).0 cs) node service false ≡ err eacces
  unfolding step effect permitted
  blocked-refused d node cs service v done quiet =
      let e = set_peer key_check d node blocked in
      let correct = step-Correct key_check announced d (to_peer node blocked) v in
      let now : (view e.0).peer node ≡ some blocked =
        ap (λ r. r.peer node) correct.0 ∙ rw done (rw (same_bytes_refl node) refl) in
      let later : (view (run e.0 cs)).peer node ≡ some blocked =
        run-peer e.0 cs node correct.1 quiet ∙ now in
      check_message-permitted (run e.0 cs) node service false
      ∙ ap (λ allowed. decided (allowed && not (is_denied ((view (run e.0 cs)).service service))))
          (ap (peer_permitted (view (run e.0 cs)).mode) later
            ∙ blocked_never (view (run e.0 cs)).mode)
