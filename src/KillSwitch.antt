-- ===== src/KillSwitch.antt =====
-- The corrigibility kill-switch (governance/corrigibility.py): the set of engaged scopes, as a list
-- without doubles, and its audit log.
pub mod Scopes
use general_autonomy_protoco.Prelude.{
  ltb, leb, eqb, if◌then◌else◌, Bool-cases, Option-cases, is_some, get_or, ◌>>=◌, >>=-eq-some,
  length, is_empty, any, select, find, last?, length-append, any-append, Member, All, All-append,
  All-map, All-prefix, All-suffix, contains, ℕ, zero, suc, ◌+◌, ◌-◌, ◌*◌, ◌/◌, ◌%◌, ◌≤◌, ◌<◌,
  String, ◌≡◌, refl, sym, ap, ◌∙◌, ◌≢◌, ◌↔◌, ◌⊎◌, inl, inr, Bool, true, false, ◌&&◌, ◌||◌, not,
  Option, none, some, List, [], ◌∷◌, ◌++◌, map, arith, ◌==◌, eq_iff, eq_refl,
}
use general_autonomy_protoco.Prelude.Dict.{
  Dict, lookup, has_key, insert, remove, values, lookup-insert, lookup-remove,
}
use general_autonomy_protoco.Prelude.Int.{ℤ, pos, negsuc, pos_part, neg_part, ltb_ℤ, leb_ℤ}

pub data SwitchEvent : Type 0 where
  -- The scope, the reason, who did it and when; and without a reason.
  engaged_event : String → String → String → ℕ → SwitchEvent
  disengaged_event : String → String → ℕ → SwitchEvent

pub record KillSwitch : Type 0 where
  pub engaged : List String
  pub log : List SwitchEvent

abbrev pub global_scope : String
global_scope = "global"

unfoldable pub engage : KillSwitch → String → String → String → ℕ → KillSwitch
engage s scope reason engaged_by now = record {
  engaged = if contains s.engaged scope then s.engaged else s.engaged ++ scope ∷ [];
  log = s.log ++ engaged_event scope reason engaged_by now ∷ [];
}

unfoldable pub disengage : KillSwitch → String → String → ℕ → KillSwitch
disengage s scope disengaged_by now = record {
  engaged = select (λ x. not (x == scope)) s.engaged;
  log = s.log ++ disengaged_event scope disengaged_by now ∷ [];
}

-- `is_engaged()` and `is_engaged(scope)`
unfoldable pub is_engaged_globally : KillSwitch → Bool
is_engaged_globally s = contains s.engaged global_scope

unfoldable pub is_engaged : KillSwitch → String → Bool
unfolding is_engaged_globally
is_engaged s scope = is_engaged_globally s || contains s.engaged scope
