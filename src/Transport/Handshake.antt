-- ===== src/Transport/Handshake.antt =====
-- transport/auth.go: the request and the answer of the handshake, as a node sees them.
use mathlib.Core.Path.{subst}
use bramble_go.Prelude.{
  ◌≡◌, ◌↔◌, ◌⊎◌, inl, inr, refl, ap, sym, ◌∙◌, not, Bool, true, false, [], ◌∷◌, Option, none, some,
  Bytes, codes, pos, eq_int_iff, ℤ, Result, ok, err, if◌then◌else◌,
}
use bramble_go.Text.{equal}
use bramble_go.Text.Laws.{equal_sound}
use bramble_go.Json.{Json, text, int, object, done, member, text_codec, int_codec_of}
use bramble_go.Json.Map.{map_codec, encode_map, encode_entries}
use bramble_go.Json.Struct.{encode_struct, members_of}
use bramble_go.Transport.{AuthResponse, AuthError, has_error, is_first_id, validate_auth_response}
use bramble_go.Transport.Request.{auth_request_fields, build_auth_request}

-- the request of the handshake
abbrev pub request : {F : Type 0} → Bytes → Json F
request secret = object (
    member (codes "jsonrpc") (text (codes "2.0")) (
      member (codes "method") (text (codes "bramble.auth")) (
        member (codes "params") (object (member (codes "token") (text secret) done))
          (member (codes "id") (int (pos 0)) done))))

pub build_auth_request-request :
    {F : Type 0} (marshal : Json F → Option Bytes) (secret : Bytes)
    → build_auth_request marshal secret ≡ marshal (request secret)
unfolding build_auth_request auth_request_fields encode_struct members_of map_codec encode_map
    encode_entries text_codec int_codec_of
build_auth_request-request marshal secret = refl

-- An answer to the id 0 without an error.
abbrev pub IsAccepting : AuthResponse → Type 0
IsAccepting r = (r.id ≡ some (pos 0)) × ((r.error ≡ []) ⊎ (r.error ≡ codes "null"))

is_first_id_iff : (o : Option ℤ) → (is_first_id o ≡ true) ↔ (o ≡ some (pos 0))
is_first_id_iff none = ((λ h. cc h), (λ h. cc h))
is_first_id_iff (some i) =
    ((λ h. ap some ((eq_int_iff i (pos 0)).0 h)), (λ h. (eq_int_iff i (pos 0)).1 (cc h)))

of_not : (b : Bool) → not b ≡ false → b ≡ true
of_not true h = refl
of_not false h = cc h

has_error_iff : (e : Bytes) → (has_error e ≡ false) ↔ ((e ≡ []) ⊎ (e ≡ codes "null"))
unfolding equal
has_error_iff [] = ((λ h. inl refl), (λ h. refl))
has_error_iff (b ∷ e) = (
  (λ h. inr (equal_sound (b ∷ e) (codes "null") (of_not _ h))),
  (λ o. elim o [ inl h ↦ cc h | inr h ↦ ap has_error h ]),
)

checked :
    (first bad : Bool) (e : AuthError) (f : AuthError)
    → (◌≡◌ {A = Result AuthError (Unit {0})}
        (if not first then err e else if bad then err f else ok tt)
        (ok tt))
      ↔ ((first ≡ true) × (bad ≡ false))
checked true true e f = ((λ h. cc h), (λ (a, b). cc))
checked true false e f = ((λ h. (refl, refl)), (λ h. refl))
checked false bad e f = ((λ h. cc h), (λ (a, b). cc))

pub validate_auth_response_iff :
    (o : Option AuthResponse)
    → (validate_auth_response o ≡ ok tt) ↔ ((r : AuthResponse) × (o ≡ some r) × IsAccepting r)
unfolding validate_auth_response
validate_auth_response_iff none = ((λ h. cc h), (λ (r, e, a). cc))
validate_auth_response_iff (some r) = (
  (λ h.
      let (f, b) = (checked (is_first_id r.id) (has_error r.error) _ _).0 h in
      (r, refl, ((is_first_id_iff r.id).0 f, (has_error_iff r.error).0 b))),
  (λ (q, same, (i, e)).
      let there : q ≡ r = cc in
      (checked (is_first_id r.id) (has_error r.error) _ _).1 (
        (is_first_id_iff r.id).1 (ap (λ x. x.id) (sym there) ∙ i),
        (has_error_iff r.error).1 (subst (λ x. (x.error ≡ []) ⊎ (x.error ≡ codes "null")) there e),
      )),
)
