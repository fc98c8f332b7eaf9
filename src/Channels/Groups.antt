-- ===== src/Channels/Groups.antt =====
-- data/ChannelManager.cpp: when a group is active.
use sim_vision_sdk.Prelude.{
  ◌≡◌, ◌↔◌, refl, true, not, List, [], ◌∷◌, arith, ℕ-eq, text-eq, Bool-cases, inl, inr,
}
use sim_vision_sdk.Prelude.Set.{contains}
use sim_vision_sdk.Types.Table.{type_eq_iff, DataType-eq, group_members_iff}
use sim_vision_sdk.Types.{DataType, DataGroup, data_type_to_group, group_members}
use sim_vision_sdk.Channels.{
  ChannelManager, is_active, group_active, any_active, last_subscriber_left, none_active,
}

none_active-any :
    (cm : ChannelManager) (ts : List DataType) → none_active cm ts ≡ not (any_active cm ts)
unfolding none_active any_active
none_active-any cm [] = refl
none_active-any cm (t ∷ ts) = ground (arith, none_active-any cm ts)

any_active-member :
    (cm : ChannelManager) (ts : List DataType) (t : DataType)
    → contains t ts ≡ true
    → is_active cm t ≡ true
    → any_active cm ts ≡ true
unfolding any_active contains
any_active-member cm [] t h e = absurd (ground arith)
any_active-member cm (u ∷ ts) t h e = ground (arith, type_eq_iff u t, any_active-member cm ts t)

any_active-found :
    (cm : ChannelManager) (ts : List DataType)
    → any_active cm ts ≡ true
    → (t : DataType) × (contains t ts ≡ true) × (is_active cm t ≡ true)
unfolding any_active contains
any_active-found cm [] h = absurd (ground arith)
any_active-found cm (u ∷ ts) h = elim (Bool-cases (is_active cm u)) [
  | inl e ↦ (u, ground (arith, type_eq_iff u u), e)
  | inr e ↦
      let (t, p, q) = any_active-found cm ts (ground (arith, e, h)) in (t, ground (arith, p), q)
]

-- A group is active exactly when one of its types is, and `last_subscriber_left` is the negation of that.
pub group_active_iff :
    (cm : ChannelManager) (g : DataGroup)
    → ((group_active cm g ≡ true)
        ↔ ((t : DataType) × (data_type_to_group t ≡ g) × (is_active cm t ≡ true)))
      × (last_subscriber_left cm g ≡ not (group_active cm g))
unfolding group_active last_subscriber_left
group_active_iff cm g = ((forward, backward), none_active-any cm (group_members g))
  where
    forward :
        any_active cm (group_members g) ≡ true
        → (t : DataType) × (data_type_to_group t ≡ g) × (is_active cm t ≡ true)
    forward h =
        let (t, p, q) = any_active-found cm (group_members g) h in
        (t, (group_members_iff g t).0 p, q)

    backward :
        (t : DataType) × (data_type_to_group t ≡ g) × (is_active cm t ≡ true)
        → any_active cm (group_members g) ≡ true
    backward (t, p, q) = any_active-member cm (group_members g) t ((group_members_iff g t).1 p) q
