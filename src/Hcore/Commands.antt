-- ===== src/Hcore/Commands.antt =====
-- v2/hcore/commands.go: the commands on a running core. The managers of sing-box are parameters; a
-- core that is not started has no box.
pub mod Resolve
pub mod UrlTest
pub mod HotAdd
use inhive_core.Prelude.{
  ℕ, zero, suc, String, Bool, true, false, not, ◌&&◌, ◌||◌, List, [], ◌∷◌, Option, none, some, same,
  join, if◌then◌else◌,
}
use inhive_core.Config.Tags.{outbound_select_tag}

-- The dynamic type of an outbound: `now` is the choice of a group.
pub data Role : Type 0 where
  server : Role
  group : (now : String) → Role
  selector : (now : String) → Role

pub record LiveOutbound : Type 0 where
  pub tag : String
  pub dependencies : List String
  pub role : Role

-- What `OutboundManager.Create` gets; `detour` is none where the options are no dialer wrapper.
pub record HotOptions : Type 0 where
  pub kind : String
  pub tag : String
  pub detour : Option String
  pub details : String

-- `invalid` is the error `os.ErrInvalid`.
pub data Removal : Type 0 where
  removed invalid : Removal
  refused : (message : String) → Removal

-- The managers, the groups and the monitor of a running box.
pub record Box (S : Type 0) : Type 0 where
  pub outbound : S → String → Option LiveOutbound
  pub outbounds : S → List LiveOutbound
  pub endpoints : S → List LiveOutbound
  pub create_outbound : S → HotOptions → S × Option String
  pub create_endpoint : S → HotOptions → S × Option String
  pub drop_outbound : S → String → S × Removal
  pub drop_endpoint : S → String → S × Removal
  pub select : S → String → String → Option S
  pub add_member : S → String → String → S
  pub remove_member : S → String → String → S
  pub test_now : S → String → S

-- The assertion to `adapter.OutboundGroup`, with the group's choice.
abbrev pub group_now : Role → Option String
group_now server = none
group_now (group now) = some now
group_now (selector now) = some now

abbrev pub is_selector : Role → Bool
is_selector (selector now) = true
is_selector _ = false

-- The reply: an error goes with the message of the response, if there is one.
pub data CommandReply : Type 0 where
  done : CommandReply
  failed : (message : String) → CommandReply

-- The loop of `resolveRealOutboundTag`, with the rounds left.
unfoldable pub resolve_from : (String → Option LiveOutbound) → ℕ → String → String
resolve_from lookup zero tag = tag
resolve_from lookup (suc rounds) tag = elim (lookup tag) [
  | none ↦ tag
  | some o ↦ elim (group_now o.role) [
    | none ↦ tag
    | some now ↦
        let next = resolve_from lookup rounds now in
        if same now "" || same now tag then tag else next
  ]
]

-- The manager is none if it is nil.
unfoldable pub resolve_real_outbound_tag : Option (String → Option LiveOutbound) → String → String
resolve_real_outbound_tag none tag = ""
resolve_real_outbound_tag (some lookup) tag = elim (lookup tag) [
  | none ↦ ""
  | some o ↦ resolve_from lookup 8 tag
]

module _ {S : Type 0} (b : Box S) where
  -- `SelectOutbound` on the box, if there is one.
  unfoldable pub select_outbound : Option S → String → String → Option S × CommandReply
  select_outbound none group_tag outbound_tag = (none, done)
  select_outbound (some s) group_tag outbound_tag = elim (b.outbound s group_tag) [
    | none ↦ (some s, failed (join "selector not found: " group_tag))
    | some o ↦
        if not (is_selector o.role)
        then (some s, failed (join "outbound is not a selector: " group_tag))
        else elim (b.select s group_tag outbound_tag) [
          | none ↦ (some s, failed (join "outbound not found in selector: " group_tag))
          | some s' ↦ (some s', done)
        ]
  ]

  -- The choice of an inner group goes before the group.
  abbrev inner_now : Option LiveOutbound → String → String
  inner_now none now = now
  inner_now (some o) now = elim (group_now o.role) [
    | none ↦ now
    | some n2 ↦ if same n2 "" then now else n2
  ]

  -- `UrlTestActive`, given the test that it calls.
  unfoldable pub url_test_active :
      (Option S → String → Option (Option S × CommandReply))
      → Option S
      → Option (Option S × CommandReply)
  url_test_active test none = some (none, done)
  url_test_active test (some s) = elim (b.outbound s outbound_select_tag) [
    | none ↦ some (some s, failed (join "selector not found: " outbound_select_tag))
    | some o ↦ elim (group_now o.role) [
      | none ↦ some (some s, failed (join "outbound is not a selector: " outbound_select_tag))
      | some now ↦
          if same now ""
          then some (some s, failed (join "outbound not found in selector: " outbound_select_tag))
          else test (some s) (inner_now (b.outbound s now) now)
    ]
  ]

  abbrev test_tag : Option S → String → Option S × CommandReply
  test_tag none tag = (none, failed "service not ready")
  test_tag (some s) tag = (some (b.test_now s tag), done)

  -- `UrlTest`, with a bound on the calls that are open; it is none if the bound is met.
  unfoldable pub url_test : ℕ → Option S → String → Option (Option S × CommandReply)
  url_test zero s tag = none
  url_test (suc calls) s tag =
      let active = url_test_active (url_test calls) s in
      if same tag "" then active else some (test_tag s tag)
