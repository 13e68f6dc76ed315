-- ===== src/Policy/Results.antt =====
-- What the operations on the tables return, by the rules and the number of entries in use.
use melodi.Slots.{index, count}
use melodi.Slots.Index.{scan-index, index-full, index-not_full}
use melodi.Slots.Keyed.{rule-index}
use melodi.Slots.{first}
use melodi.Peers.{Peer, is_peer}
use melodi.NodeId.{node_id_valid}
use melodi.Policy.{
  Policy, PolicyPeer, PeerState, PolicyService, peer_hit, service_hit, no_peer, no_service,
  is_blocked, is_trusted, set_peer, clear_peer, set_service, put_service, set_broadcast, set_mode,
  reverify_peer, reset_peer, action_allow, action_clear, service_control,
}
use melodi.Policy.Lookup.{view, peers_table, services_table, peer_locked-lookup, peer_locked-create}
use melodi.Policy.Rules.{
  IsPolicy, Command, to_peer, to_clear, to_service, to_broadcast, to_mode, to_reset, to_reverify,
  step,
}
use melodi.Base.{
  ltb, ◌==◌, if◌then◌else◌, Bool-cases, Option-cases, Result, ok, err, einval, enoent, enospc, ℕ,
  ◌≡◌, refl, sym, ap, ◌∙◌, inl, inr, Bool, true, false, not, ◌||◌, Option, none, some, List, [],
  ◌∷◌, arith,
}

abbrev pub is_some {ℓ} : {A : Type ℓ} → Option A → Bool
is_some none = false
is_some (some _) = true

-- How many entries are in use.
unfoldable pub peers_used : Policy → ℕ
peers_used d = count (λ (e : PolicyPeer). e.active) d.policy_peers

unfoldable pub services_used : Policy → ℕ
services_used d = count (λ (e : PolicyService). e.active) d.policy_services

-- What a request that adds or changes a rule comes to.
abbrev pub placed : (used : ℕ) → (present : Bool) → Result (Unit {0})
placed used present = if present || ltb used 64 then ok tt else err enospc

abbrev pub erased : (present : Bool) → Result (Unit {0})
erased present = if present then ok tt else err enoent

-- Whether a rule is present, and whether an entry is left, by what the loop looks for.
module _ (d : Policy) (v : IsPolicy d) where
  peer-present :
      (node : List ℕ)
      → is_some ((view d).peer node) ≡ is_some (index (peer_hit node) d.policy_peers)
  unfolding view
  peer-present node =
      let ruled = rule-index peers_table node d.policy_peers no_peer in
      elim (Option-cases (index (peer_hit node) d.policy_peers)) [
        | inr (i, at) ↦ rw (ruled, at) refl
        | inl gone ↦ rw (ruled, gone) refl
      ]

  service-present :
      (service : ℕ)
      → is_some ((view d).service service) ≡ is_some (index (service_hit service) d.policy_services)
  unfolding view
  service-present service =
      let ruled = rule-index services_table service d.policy_services no_service in
      elim (Option-cases (index (service_hit service) d.policy_services)) [
        | inr (i, at) ↦ rw (ruled, at) refl
        | inl gone ↦ rw (ruled, gone) refl
      ]

  peers-left :
      is_some (index (λ (e : PolicyPeer). not e.active) d.policy_peers) ≡ ltb (peers_used d) 64
  unfolding peers_used
  peers-left = elim (Option-cases (index (λ (e : PolicyPeer). not e.active) d.policy_peers)) [
    | inl full ↦ rw full (
        ground (arith, index-full (λ (e : PolicyPeer). e.active) d.policy_peers full, v.peer_slots))
    | inr (i, empty) ↦ rw empty (
        ground (
          arith,
          index-not_full (λ (e : PolicyPeer). e.active) d.policy_peers i empty,
          v.peer_slots,
        ))
  ]

  services-left :
      is_some (index (λ (e : PolicyService). not e.active) d.policy_services)
      ≡ ltb (services_used d) 64
  unfolding services_used
  services-left =
      elim (Option-cases (index (λ (e : PolicyService). not e.active) d.policy_services)) [
        | inl full ↦ rw full (
            ground (
              arith,
              index-full (λ (e : PolicyService). e.active) d.policy_services full,
              v.service_slots,
            ))
        | inr (i, empty) ↦ rw empty (
            ground (
              arith,
              index-not_full (λ (e : PolicyService). e.active) d.policy_services i empty,
              v.service_slots,
            ))
      ]

  -- A peer can be trusted or blocked, under a valid NodeId, unless it has no entry and all 64 are in
  -- use.
  set_peer-result :
      (key_check : List ℕ → Bool) (node : List ℕ) (state : PeerState)
      → (set_peer key_check d node state).2 ≡ (
          if not (node_id_valid key_check node) || not (is_trusted state || is_blocked state)
          then err einval
          else placed (peers_used d) (is_some ((view d).peer node)))
  unfolding set_peer
  set_peer-result key_check node state =
      let bad = not (node_id_valid key_check node) || not (is_trusted state || is_blocked state) in
      let looked = peer_locked-create d node in
      rw (peer-present node, sym peers-left)
        (elim (Bool-cases bad) [
          | inl refused ↦ rw refused refl
          | inr good ↦ elim (Option-cases (index (peer_hit node) d.policy_peers)) [
            | inr (i, at) ↦ rw (good, looked, at) refl
            | inl gone ↦
                elim (Option-cases (index (λ (e : PolicyPeer). not e.active) d.policy_peers)) [
                  | inl full ↦ rw (good, looked, gone, full) refl
                  | inr (i, empty) ↦ rw (good, looked, gone, empty) refl
                ]
          ]
        ])

  -- An entry is cleared just when there is one.
  clear_peer-result :
      (key_check : List ℕ → Bool) (node : List ℕ)
      → (clear_peer key_check d node).2 ≡ (
          if not (node_id_valid key_check node)
          then err einval
          else erased (is_some ((view d).peer node)))
  unfolding clear_peer
  clear_peer-result key_check node =
      let looked = peer_locked-lookup d node in
      rw (peer-present node) (elim (Bool-cases (not (node_id_valid key_check node))) [
        | inl refused ↦ rw refused refl
        | inr good ↦ elim (Option-cases (index (peer_hit node) d.policy_peers)) [
          | inr (i, at) ↦ rw (good, looked, at) refl
          | inl gone ↦ rw (good, looked, gone) refl
        ]
      ])

  -- A service other than the control service can be allowed or denied unless it has no entry and all
  -- 64 are in use, and is cleared just when it has one.
  set_service-result :
      (service action : ℕ)
      → (set_service d service action).2 ≡ (
          if service == service_control || ltb action action_allow || ltb action_clear action
          then err einval
          else if action == action_clear
          then erased (is_some ((view d).service service))
          else placed (services_used d) (is_some ((view d).service service)))
  unfolding set_service put_service
  set_service-result service action =
      let bad = service == service_control || ltb action action_allow || ltb action_clear action in
      let looked = scan-index (λ e. e.active) (service_hit service) d.policy_services in
      rw (service-present service, sym services-left)
        (elim (Bool-cases bad) [
          | inl refused ↦ rw refused refl
          | inr good ↦ elim (Option-cases (index (service_hit service) d.policy_services)) [
            | inr (i, at) ↦ elim (Bool-cases (action == action_clear)) [
              | inl clearing ↦ rw (good, looked, at, clearing) refl
              | inr keep ↦ rw (good, looked, at, keep) refl
            ]
            | inl gone ↦ elim (Bool-cases (action == action_clear)) [
              | inl clearing ↦ rw (good, looked, gone, clearing) refl
              | inr keep ↦
                  elim (Option-cases
                    (index (λ (e : PolicyService). not e.active) d.policy_services)) [
                      | inl full ↦ rw (good, looked, gone, keep, full) refl
                      | inr (i, empty) ↦ rw (good, looked, gone, keep, empty) refl
                    ]
            ]
          ]
        ])

reset_peer-present :
    (node : List ℕ) (ps : List Peer)
    → is_some (reset_peer node ps) ≡ is_some (first (is_peer node) ps)
unfolding reset_peer first
reset_peer-present node [] = refl
reset_peer-present node (p ∷ ps) = elim (Bool-cases (is_peer node p)) [
  | inl here ↦ rw here refl
  | inr elsewhere ↦ rw elsewhere (elim (Option-cases (reset_peer node ps)) [
    | inl gone ↦ rw (gone) (ap is_some (sym gone) ∙ reset_peer-present node ps)
    | inr (ps', there) ↦ rw (there) (ap is_some (sym there) ∙ reset_peer-present node ps)
  ])
]

-- What each request returns. A peer can be trusted or blocked, under a valid NodeId, unless it has
-- no entry and all 64 are in use; a service likewise, unless it is the control service; an entry is
-- cleared just when there is one.
unfoldable pub expected : (List ℕ → Bool) → Result (Unit {0}) → Policy → Command → Result (Unit {0})
expected key_check announced d (to_peer node state) =
    if not (node_id_valid key_check node) || not (is_trusted state || is_blocked state)
    then err einval
    else placed (peers_used d) (is_some ((view d).peer node))
expected key_check announced d (to_clear node) =
    if not (node_id_valid key_check node) then err einval else erased (is_some ((view d).peer node))
expected key_check announced d (to_service service action) =
    if service == service_control || ltb action action_allow || ltb action_clear action
    then err einval
    else if action == action_clear
    then erased (is_some ((view d).service service))
    else placed (services_used d) (is_some ((view d).service service))
expected key_check announced d (to_broadcast allowed) = ok tt
expected key_check announced d (to_mode mode) = if ltb 1 mode then err einval else ok tt
expected key_check announced d to_reset = ok tt
expected key_check announced d (to_reverify node) =
    if not (node_id_valid key_check node)
    then err einval
    else if is_some (first (is_peer node) d.peers)
    then announced
    else err enoent

reverify_peer-result :
    (key_check : List ℕ → Bool) (announced : Result (Unit {0})) (d : Policy) (node : List ℕ)
    → (reverify_peer key_check announced d node).2
      ≡ expected key_check announced d (to_reverify node)
unfolding reverify_peer expected
reverify_peer-result key_check announced d node =
    rw (sym (reset_peer-present node d.peers))
      (elim (Bool-cases (not (node_id_valid key_check node))) [
        | inl bad ↦ rw bad refl
        | inr good ↦ elim (Option-cases (reset_peer node d.peers)) [
          | inl unknown ↦ rw (good, unknown) refl
          | inr (ps, known) ↦ rw (good, known) refl
        ]
      ])

-- On well-formed tables every request returns 0 or the error that the rules, the number of entries
-- in use and the known peers determine.
pub step-expected :
    (key_check : List ℕ → Bool) (announced : Result (Unit {0})) (d : Policy) (c : Command)
    → IsPolicy d
    → (step key_check announced d c).2 ≡ expected key_check announced d c
unfolding step set_broadcast set_mode expected
step-expected key_check announced d (to_peer node state) v =
    set_peer-result d v key_check node state
step-expected key_check announced d (to_clear node) v = clear_peer-result d v key_check node
step-expected key_check announced d (to_service service action) v =
    set_service-result d v service action
step-expected key_check announced d (to_broadcast allowed) v = refl
step-expected key_check announced d (to_mode mode) v = elim (Bool-cases (ltb 1 mode)) [
  | inl bad ↦ rw bad refl
  | inr good ↦ rw good refl
]
step-expected key_check announced d to_reset v = refl
step-expected key_check announced d (to_reverify node) v =
    reverify_peer-result key_check announced d node
