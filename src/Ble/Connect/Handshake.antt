-- ===== src/Ble/Connect/Handshake.antt =====
-- transport/ble.go: what the handshake of a connection leaves as it is.
use bramble_go.Prelude.{
  is_empty, Option, ◌≡◌, refl, ◌∙◌, ℕ, zero, suc, [], ◌∷◌, Bytes, Result, ok, err, length, drop,
  take, Bool-cases, inl, inr, ◌++◌,
}
use bramble_go.Ble.{
  Ble, Error, send, write_chunks, written, authenticate, Ack, Ready, token_written, answered,
  ble_auth_attempts, retry_send, retried, waited, ble_chunk_size, is_transient_ble_write_error,
}

-- `opened` reads something off the world.
module _ {W : Type 0} (opened : W → ℕ) where
  -- no call changes what `opened` reads
  abbrev pub Keeps {ℓ} : {R : Type ℓ} → (W → R × W) → Type 0
  Keeps f = (w : W) → opened (f w).1 ≡ opened w

  module _ (write : Bytes → W → Result Bytes (Unit {0}) × W)
      (k : (text : Bytes) → Keeps (write text)) where
    written-Keeps :
        (rest : W → Result Error (Unit {0}) × W) (r : Result Bytes (Unit {0}) × W)
        → Keeps rest
        → opened (written write rest r).1 ≡ opened r.1
    unfolding written
    written-Keeps rest (ok u, w) h = h w
    written-Keeps rest (err text, w) h = refl

    write_chunks-Keeps : (fuel : ℕ) (payload : Bytes) → Keeps (write_chunks write fuel payload)
    unfolding write_chunks
    write_chunks-Keeps zero payload w = refl
    write_chunks-Keeps (suc fuel) [] w = refl
    write_chunks-Keeps (suc fuel) (c ∷ payload) w =
        written-Keeps (write_chunks write fuel (drop ble_chunk_size (c ∷ payload)))
          (write (take ble_chunk_size (c ∷ payload)) w)
          (write_chunks-Keeps fuel (drop ble_chunk_size (c ∷ payload)))
        ∙ k (take ble_chunk_size (c ∷ payload)) w

    send-Keeps : (b : Ble) (text : Bytes) → Keeps (send write b text)
    unfolding send
    send-Keeps b text w = elim (Bool-cases b.reconnecting) [
      | inl r ↦ rw r refl
      | inr r ↦ elim (Bool-cases b.connected) [
        | inl c ↦ rw (r, c) (write_chunks-Keeps (length (text ++ 0x0a ∷ [])) (text ++ 0x0a ∷ []) w)
        | inr c ↦ rw (r, c) refl
      ]
    ]

  module _ (wait : W → Result Error (Unit {0}) × W) (k : Keeps wait) where
    waited-Keeps :
        (rest : W → Result Error (Unit {0}) × W) (r : Result Error (Unit {0}) × W)
        → Keeps rest
        → opened (waited wait rest r).1 ≡ opened r.1
    unfolding waited
    waited-Keeps rest (ok u, w) h = h w
    waited-Keeps rest (err e, w) h = refl

    retried-Keeps :
        (rest : W → Result Error (Unit {0}) × W) (r : Result Error (Unit {0}) × W)
        → Keeps rest
        → opened (retried wait rest r).1 ≡ opened r.1
    unfolding retried
    retried-Keeps rest (ok u, w) h = refl
    retried-Keeps rest (err e, w) h = elim (Bool-cases (is_transient_ble_write_error e)) [
      | inl t ↦ rw t (waited-Keeps rest (wait w) h ∙ k w)
      | inr t ↦ rw t refl
    ]

    retry_send-Keeps :
        (try : W → Result Error (Unit {0}) × W) (n : ℕ) → Keeps try → Keeps (retry_send wait try n)
    unfolding retry_send
    retry_send-Keeps try zero h w = refl
    retry_send-Keeps try (suc zero) h w = h w
    retry_send-Keeps try (suc (suc n)) h w =
        retried-Keeps (retry_send wait try (suc n)) (try w) (retry_send-Keeps try (suc n) h) ∙ h w

  module _ (write : Bytes → W → Result Bytes (Unit {0}) × W)
      (wait : W → Result Error (Unit {0}) × W) (select : W → Ready × W)
      (unmarshal : Bytes → Option Ack) (on_write : (text : Bytes) → Keeps (write text))
      (on_wait : Keeps wait) (on_select : Keeps select) where
    token_written_keeps :
        (r : Result Error (Unit {0}) × W)
        → opened (token_written write wait select unmarshal r).1 ≡ opened r.1
    unfolding token_written answered
    token_written_keeps (ok u, w) = on_select w
    token_written_keeps (err e, w) = refl

    pub authenticate-Keeps : (b : Ble) → Keeps (authenticate write wait select unmarshal b)
    unfolding authenticate
    authenticate-Keeps b w = elim (Bool-cases (is_empty b.auth_token)) [
      | inl e ↦ rw e refl
      | inr e ↦ rw e (
          token_written_keeps
            (retry_send wait (send write b b.auth_token) (ble_auth_attempts b.auth_token) w)
          ∙ retry_send-Keeps wait on_wait (send write b b.auth_token)
              (ble_auth_attempts b.auth_token) (send-Keeps write on_write b b.auth_token) w)
    ]
