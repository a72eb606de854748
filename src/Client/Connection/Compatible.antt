-- ===== src/Client/Connection/Compatible.antt =====
-- client.go: what a `Connect` that returns without an error has found out about the node.
use bramble_go.Prelude.{
  ◌≡◌, ◌↔◌, refl, ap, ◌∙◌, Bool, true, false, none, some, Option, Bytes, codes, Result, ok, err,
  if◌then◌else◌, or_err,
}
use mathlib.Core.Path.{subst}
use bramble_go.Protocol.{CallError}
use bramble_go.Version.{Parts, parse_version, is_compatible}
use bramble_go.Version.Range.{Precedes, release, is_compatible_iff}
use bramble_go.Client.{Params, Error, query, invoke, decode_failed}
use bramble_go.Client.Laws.{read, read_ok_lem}
use bramble_go.Client.Queries.{version}
use bramble_go.Client.Connection.{
  VersionResponse, Client, ConnectError, Lifecycle, version_checked, transport_connected, connect,
}

-- a version from 0.1.0 to 0.5.0
abbrev pub IsSupported : Bytes → Type 0
IsSupported v =
    (p : Parts) × (parse_version v ≡ some p) × Precedes (release 1) p × Precedes p (release 5)

-- The answer `v` to `bramble.getVersion` in the state `s`.
abbrev pub HasVersion :
    {F S : Type 0}
    → (Bytes → Params F → S → Result CallError Bytes × S)
    → (Bytes → Option VersionResponse)
    → S
    → VersionResponse
    → S
    → Type 0
HasVersion call unmarshal s v t =
    (raw : Bytes) × (call (codes "bramble.getVersion") none s ≡ (ok raw, t))
    × (unmarshal raw ≡ some v)

or_err-ok : {T : Type 0} (o : Option T) (e : Error) (v : T) → or_err o e ≡ ok v → o ≡ some v
or_err-ok none e v h = cc
or_err-ok (some u) e v h = cc

if_ok :
    {E A : Type 0} (b : Bool) (e : E) (x y z : A)
    → ◌≡◌ {A = Result E (Unit {0}) × A} (if b then (ok tt, x) else (err e, y)) (ok tt, z)
    → (b ≡ true) × (x ≡ z)
if_ok true e x y z h = (refl, cc)
if_ok false e x y z h = cc

module _ {F S : Type 0} (call : Bytes → Params F → S → Result CallError Bytes × S)
    (unmarshal : Bytes → Option VersionResponse) where
  version_iff :
      (s t : S) (v : VersionResponse)
      → (version call unmarshal s ≡ (ok v, t)) ↔ HasVersion call unmarshal s v t
  unfolding version query invoke
  version_iff s t v = (
    (λ h.
        let (raw, c, d) =
          read_ok_lem (λ raw. or_err (unmarshal raw) (decode_failed (codes "VersionResponse")))
            (call (codes "bramble.getVersion") none s) v t h in
        (raw, c, or_err-ok (unmarshal raw) _ v d)),
    (λ (raw, c, d).
        ap (read (λ raw. or_err (unmarshal raw) (decode_failed (codes "VersionResponse")))) c
        ∙ ap (λ o. (or_err o (decode_failed (codes "VersionResponse")), t)) d),
  )

module _ {F S H D : Type 0} (call : Bytes → Params F → S → Result CallError Bytes × S)
    (unmarshal : Bytes → Option VersionResponse) (life : Lifecycle S) where
  open life use {connect_transport, start}

  checked_ok :
      (c : Client H D) (r : Result Error VersionResponse × S) (t : S)
      → (version_checked call unmarshal life c r ≡ (ok tt, (c, t)))
        ↔ ((v : VersionResponse) × (r ≡ (ok v, t)) × (is_compatible v.protocol_version ≡ true))
  unfolding version_checked
  checked_ok c (err e, s) t = ((λ h. cc), (λ (v, e, h). cc))
  checked_ok c (ok v, s) t = (
    (λ h.
        let (good, same) =
          if_ok (is_compatible v.protocol_version) (ConnectError.incompatible v.protocol_version)
            (c, s) (c, s) (c, t) h in
        (v, cc, good)),
    (λ (u, e, h).
        let same : v ≡ u = cc in
        let there : s ≡ t = cc in
        let good : is_compatible v.protocol_version ≡ true =
          ap (λ x. is_compatible x.protocol_version) same ∙ h in
        rw good (ap (λ x. (ok tt, (c, x))) there)),
  )

  connected_ok :
      (c : Client H D) (r : Result Bytes (Unit {0}) × S) (t : S)
      → (transport_connected call unmarshal life c r ≡ (ok tt, (record c { proto = true }, t))) ↔ (
          (s : S) × (r ≡ (ok tt, s))
          × (v : VersionResponse) × HasVersion call unmarshal (start s) v t
          × (is_compatible v.protocol_version ≡ true))
  unfolding transport_connected
  connected_ok c (ok u, s) t = (
    (λ h.
        let (v, e, good) =
          (checked_ok (record c { proto = true }) (version call unmarshal (start s)) t).0 h in
        (s, refl, v, (version_iff call unmarshal (start s) t v).0 e, good)),
    (λ (r, e, v, has, good).
        let there : r ≡ s = cc in
        (checked_ok (record c { proto = true }) (version call unmarshal (start s)) t).1 (
          v,
          (version_iff call unmarshal (start s) t v).1
              (subst (λ x. HasVersion call unmarshal (start x) v t) there has),
          good,
        )),
  )
  connected_ok c (err e, s) t = ((λ h. cc), (λ (s, e, v, h, g). cc))

  -- `Connect` returns without an error exactly if the transport connects, `bramble.getVersion`, the
  -- first call on the new connection, is answered with something that decodes, and the protocol
  -- version in it is one from 0.1.0 to 0.5.0, both included. The client then has its protocol.
  pub connect_ok_iff :
      (c : Client H D) (s t : S)
      → (connect call unmarshal life c s ≡ (ok tt, (record c { proto = true }, t))) ↔ (
          (s₁ : S) × (connect_transport s ≡ (ok tt, s₁))
          × (v : VersionResponse) × HasVersion call unmarshal (start s₁) v t
          × IsSupported v.protocol_version)
  unfolding connect
  connect_ok_iff c s t = (
    (λ h.
        let (s₁, e, v, has, good) = (connected_ok c (connect_transport s) t).0 h in
        (s₁, e, v, has, (is_compatible_iff v.protocol_version).0 good)),
    (λ (s₁, e, v, has, good).
        (connected_ok c (connect_transport s) t).1
          (s₁, e, v, has, (is_compatible_iff v.protocol_version).1 good)),
  )
