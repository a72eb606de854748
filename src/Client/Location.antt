-- ===== src/Client/Location.antt =====
-- client.go: location contacts.
use bramble_go.Prelude.{
  ℕ, Bool, List, [], ◌∷◌, ◌++◌, Option, some, Bytes, codes, ℤ, if◌then◌else◌, is_empty, Result,
}
use bramble_go.Protocol.{CallError}
use bramble_go.Client.{optional, Value, text, int, bool, Params, Api, command}
use bramble_go.Client.Messages.{format_address}

pub record LocationContactRule : Type 0 where
  pub address : Bytes
  pub enabled : Option Bool
  pub tier : Bytes
  pub interval_s : Option ℤ

abbrev or_else : Bytes → Bytes → Bytes
or_else s other = if is_empty s then other else s

-- the map that `SetLocationContact` fills; of the overrides only the first counts
pub contact_params : {F : Type 0} → ℕ → Bytes → List LocationContactRule → List (Bytes × Value F)
contact_params addr tier [] =
    (codes "address", text (format_address addr)) ∷ (codes "tier", text tier) ∷ []
contact_params addr tier (rule ∷ rules) =
    (codes "address", text (or_else rule.address (format_address addr)))
    ∷ (codes "tier", text (or_else rule.tier tier))
    ∷ (optional (codes "enabled") bool rule.enabled
        ++ optional (codes "interval_s") int rule.interval_s)

module _ {F S : Type 0} (call : Bytes → Params F → S → Result CallError Bytes × S)
    (read_ok : Bytes → Option Bool) where
  pub set_location_contact : ℕ → Bytes → List LocationContactRule → Api S (Unit {0})
  unfolding contact_params
  set_location_contact addr tier overrides =
      command call read_ok (codes "bramble.setLocationContact") (codes "setLocationContact")
        (some (contact_params addr tier overrides))

  pub remove_location_contact : ℕ → Api S (Unit {0})
  remove_location_contact addr =
      command call read_ok (codes "bramble.removeLocationContact") (codes "removeLocationContact")
        (some ((codes "address", text (format_address addr)) ∷ []))

  pub share_location_once : ℕ → Api S (Unit {0})
  share_location_once addr =
      command call read_ok (codes "bramble.shareLocationOnce") (codes "shareLocationOnce")
        (some ((codes "address", text (format_address addr)) ∷ []))
