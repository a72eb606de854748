-- ===== src/Ble/Connect/Devices.antt =====
-- transport/ble.go: `Connect` and the devices that it opens.
use bramble_go.Prelude.{
  ◌≡◌, refl, ◌∙◌, ◌-◌, ℕ, suc, true, false, List, [], ◌∷◌, Option, none, some, Bytes, Result, ok,
  err, length, ltb, arith, Bool-cases, inl, inr,
}
use bramble_go.Ble.{Error, Ack, authenticate}
use bramble_go.Ble.Link.{Link, connect_done, link_down, drop_link}
use bramble_go.Ble.Connect.Handshake.{Keeps, authenticate-Keeps}
use bramble_go.Ble.Connect.{
  Adapter, Peer, ConnectError, notifications_failed, characteristics_not_found, fail, authenticated,
  ble_of, set_up, notified, enable_one, Role, tx, rx, unused, role, enable_all, enabled_all,
  characteristics,
}

-- `opened` counts the devices that are connected: a connection that succeeds is one more,
-- `Disconnect` is one less, and no other call changes the number.
pub record Counts {W A D S C : Type 0} (adapter : Adapter W A D S C) (opened : W → ℕ) : Type 0 where
  pub on_enable : Keeps opened adapter.enable
  pub on_scan : (timeout : ℕ) → Keeps opened (adapter.scan timeout)
  pub on_connect :
      (a : A) (d : D) (w u : W) → adapter.connect_device a w ≡ (ok d, u) → opened u ≡ suc (opened w)
  pub on_refusal :
      (a : A) (text : Bytes) (w u : W)
      → adapter.connect_device a w ≡ (err text, u)
      → opened u ≡ opened w
  pub on_services : (d : D) → Keeps opened (adapter.discover_services d)
  pub on_characteristics : (s : S) → Keeps opened (adapter.discover_characteristics s)
  pub on_notifications : (c : C) → Keeps opened (adapter.enable_notifications c)
  pub on_write : (c : Option C) (text : Bytes) → Keeps opened (adapter.write c text)
  pub on_disconnect : (d : D) (w : W) → opened (adapter.disconnect d w) ≡ opened w - 1
  pub on_wait : Keeps opened adapter.wait
  pub on_select : Keeps opened adapter.select

module _ {W A D S C : Type 0} (adapter : Adapter W A D S C) (opened : W → ℕ)
    (counts : Counts adapter opened) (unmarshal : Bytes → Option Ack) where
  -- A return from `n` devices: with one more and the transport connected, or with an error, as many
  -- as before and the transport not connected.
  abbrev pub IsClean : ℕ → Result ConnectError (Unit {0}) × (Peer D C × W) → Type 0
  IsClean n (ok u, (p, w)) = (opened w ≡ suc n) × (p.link.connected ≡ true)
  IsClean n (err e, (p, w)) = (opened w ≡ n) × (p.link.connected ≡ false)

  link_down_lem : (l : Link) → l.connected ≡ true → (link_down l).connected ≡ false
  unfolding link_down drop_link
  link_down_lem l h = rw h refl

  pub fail-IsClean :
      (n : ℕ) (d : D) (e : ConnectError) (p : Peer D C) (w : W)
      → opened w ≡ suc n
      → p.link.connected ≡ false
      → IsClean n (fail adapter unmarshal d e p w)
  fail-IsClean n d e p w h c = (omega (arith, counts.on_disconnect d w), c)

  authenticated-IsClean :
      (n : ℕ) (d : D) (p : Peer D C) (r : Result Error (Unit {0}) × W)
      → opened r.1 ≡ suc n
      → p.link.connected ≡ true
      → IsClean n (authenticated adapter unmarshal d p r)
  unfolding authenticated
  authenticated-IsClean n d p (ok u, w) h c = (h, c)
  authenticated-IsClean n d p (err e, w) h c =
      (omega (arith, counts.on_disconnect d w), link_down_lem p.link c)

  set_up-IsClean :
      (n : ℕ) (d : D) (c : Option C) (p : Peer D C) (w : W)
      → opened w ≡ suc n
      → IsClean n (set_up adapter unmarshal d c p w)
  unfolding set_up connect_done
  set_up-IsClean n d c p w h =
      let q : Peer D C = record p { device = some d; tx_char = c; link = connect_done p.link } in
      authenticated-IsClean n d q
        (authenticate (adapter.write c) adapter.wait adapter.select unmarshal
          (ble_of adapter unmarshal q) w)
        (authenticate-Keeps opened (adapter.write c) adapter.wait adapter.select unmarshal
            (counts.on_write c) counts.on_wait counts.on_select (ble_of adapter unmarshal q) w
          ∙ h)
        refl

  notified-Keeps :
      (rest : W → Result Bytes (Option C) × W) (r : Result Bytes (Unit {0}) × W)
      → Keeps opened rest
      → opened (notified adapter unmarshal rest r).1 ≡ opened r.1
  unfolding notified
  notified-Keeps rest (ok u, w) k = k w
  notified-Keeps rest (err text, w) k = refl

  enable_one-Keeps :
      (rest : Option C → W → Result Bytes (Option C) × W) (k : Role) (c : C) (found : Option C)
      → ((o : Option C) → Keeps opened (rest o))
      → Keeps opened (enable_one adapter unmarshal rest k c found)
  unfolding enable_one
  enable_one-Keeps rest tx c found h w = h (some c) w
  enable_one-Keeps rest rx c found h w =
      notified-Keeps (rest found) (adapter.enable_notifications c w) (h found)
      ∙ counts.on_notifications c w
  enable_one-Keeps rest unused c found h w = h found w

  enable_all-Keeps :
      (cs : List C) (found : Option C) → Keeps opened (enable_all adapter unmarshal cs found)
  unfolding enable_all
  enable_all-Keeps [] found w = refl
  enable_all-Keeps (c ∷ cs) found w =
      enable_one-Keeps (enable_all adapter unmarshal cs) (role (adapter.uuid c)) c found
        (enable_all-Keeps cs) w

  enabled_all-IsClean :
      (n : ℕ) (d : D) (p : Peer D C) (r : Result Bytes (Option C) × W)
      → opened r.1 ≡ suc n
      → p.link.connected ≡ false
      → IsClean n (enabled_all adapter unmarshal d p r)
  unfolding enabled_all
  enabled_all-IsClean n d p (ok c, w) h x = set_up-IsClean n d c p w h
  enabled_all-IsClean n d p (err text, w) h x = fail-IsClean n d (notifications_failed text) p w h x

  pub characteristics-IsClean :
      (n : ℕ) (d : D) (p : Peer D C) (r : Result Bytes (List C) × W)
      → opened r.1 ≡ suc n
      → p.link.connected ≡ false
      → IsClean n (characteristics adapter unmarshal d p r)
  unfolding characteristics
  characteristics-IsClean n d p (err text, w) h x =
      fail-IsClean n d (characteristics_not_found 0) p w h x
  characteristics-IsClean n d p (ok cs, w) h x = elim (Bool-cases (ltb (length cs) 2)) [
    | inl few ↦ rw few (fail-IsClean n d (characteristics_not_found (length cs)) p w h x)
    | inr many ↦ rw many (
        enabled_all-IsClean n d p (enable_all adapter unmarshal cs none w)
          (enable_all-Keeps cs none w ∙ h) x)
  ]
