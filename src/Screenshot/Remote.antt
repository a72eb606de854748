-- ===== src/Screenshot/Remote.antt =====
-- screenshot.go: `Client.Screenshot`, whose fetches are calls of the client.
use bramble_go.Prelude.{
  ◌≡◌, refl, ap, ◌∙◌, ◌≤◌, ◌<◌, ◌^◌, ℕ, Bool, true, [], ◌∷◌, Option, some, Bytes, IsBytes, codes, ℤ,
  pos, Result, ok, or_err, length, take, drop, length-take, length-drop, lt→ltb, arith,
}
use bramble_go.Text.{equal}
use bramble_go.Protocol.{CallError}
use bramble_go.Client
use bramble_go.Client.{Api, call_raw, invoke, decode_failed, done, ◌>>=◌}
use bramble_go.Client.Laws.{read}
use bramble_go.Json.{Json, text_codec, int_codec, int_codec_of, fits_int}
use bramble_go.Json.Struct.{required, omitempty, pick, decode_member, encode_struct}
use bramble_go.Json.Laws.{◌⊗◌, Struct, AllValid}
use bramble_go.Wire.Reading.{unmarshal, unmarshal_written}
use bramble_go.Screenshot.{
  Chunk, Screenshot, Params, capture, from, Error, assemble_screenshot, max_screenshot_bytes,
}
use bramble_go.Screenshot.Frame.{piece, assemble_served}

unfoldable pub screenshot_chunk_json : {F : Type 0} → Struct F Chunk
unfolding pick equal decode_member int_codec_of text_codec
screenshot_chunk_json = record {
  fields =
      required int_codec (codes "width") (λ t. t.width) (λ a t. record t { width = a })
      ∷ required int_codec (codes "height") (λ t. t.height) (λ a t. record t { height = a })
      ∷ required text_codec (codes "format") (λ t. t.format) (λ a t. record t { format = a })
      ∷ required int_codec (codes "total") (λ t. t.total) (λ a t. record t { total = a })
      ∷ required int_codec (codes "offset") (λ t. t.offset) (λ a t. record t { offset = a })
      ∷ required int_codec (codes "len") (λ t. t.len) (λ a t. record t { len = a })
      ∷ required text_codec (codes "data") (λ t. t.content) (λ a t. record t { content = a })
      ∷ omitempty text_codec (codes "error") (λ t. t.error) (λ a t. record t { error = a })
      ∷ [];
  zero = record {
    width = pos 0;
    height = pos 0;
    format = [];
    total = pos 0;
    offset = pos 0;
    len = pos 0;
    content = [];
    error = [];
  };
  makes = λ t.
      ((λ j u. refl), refl, refl)
      ⊗ ((λ j u. refl), refl, refl)
      ⊗ ((λ j u. refl), refl, refl)
      ⊗ ((λ j u. refl), refl, refl)
      ⊗ ((λ j u. refl), refl, refl)
      ⊗ ((λ j u. refl), refl, refl)
      ⊗ ((λ j u. refl), refl, refl)
      ⊗ ((λ j u. refl), refl, refl)
      ⊗ refl;
}

-- the map that a fetch is given
abbrev pub params_of : {F : Type 0} → Params → Client.Params F
params_of capture = some ((codes "capture", Client.bool true) ∷ [])
params_of (from n) = some ((codes "offset", Client.int (pos n)) ∷ [])

module _ {F S : Type 0} (call : Bytes → Client.Params F → S → Result CallError Bytes × S)
    (unmarshal_chunk : Bytes → Option Chunk) (proto : Bool) where
  unfoldable pub fetch_chunk : Params → Api S Chunk
  unfolding call_raw
  fetch_chunk p = do
    raw ← call_raw call proto (codes "bramble.screenshot") (params_of p)
    done (or_err (unmarshal_chunk raw) (decode_failed (codes "ScreenshotChunk")))

  unfoldable pub screenshot : S → Result (Error Client.Error) Screenshot × S
  unfolding fetch_chunk
  screenshot = assemble_screenshot fetch_chunk

-- A node that serves chunks of `size` bytes at most.
module _ {F G S : Type 0} (parse : Bytes → Option (Json G))
    (call : Bytes → Client.Params F → S → Result CallError Bytes × S) (size : ℕ) (width height : ℤ)
    (format : Bytes) where
  -- From one state to another, the node answers a fetch with a chunk.
  abbrev pub Serves : Params → Chunk → S → S → Type 0
  Serves p chunk s s' =
      (raw : Bytes) × (call (codes "bramble.screenshot") (params_of p) s ≡ (ok raw, s'))
      × (parse raw ≡ some (encode_struct screenshot_chunk_json.fields chunk))

  fetch_served :
      (p : Params) (chunk : Chunk) (s s' : S)
      → AllValid {F = G} screenshot_chunk_json.fields chunk
      → Serves p chunk s s'
      → fetch_chunk call (unmarshal parse screenshot_chunk_json) true p s ≡ (ok chunk, s')
  unfolding fetch_chunk call_raw invoke
  fetch_served p chunk s s' v (raw, c, h) =
      ap
        (read (λ r.
          or_err (unmarshal parse screenshot_chunk_json r)
            (decode_failed (codes "ScreenshotChunk"))))
        c
      ∙ ap (λ o. (or_err o (decode_failed (codes "ScreenshotChunk")), s'))
          (unmarshal_written parse screenshot_chunk_json chunk raw v h)

  valid_piece :
      (frame : Bytes) (j : ℕ)
      → fits_int width ≡ true
      → fits_int height ≡ true
      → j ≤ length frame
      → length frame ≤ max_screenshot_bytes
      → AllValid {F = G} screenshot_chunk_json.fields (piece size width height format frame j)
  unfolding screenshot_chunk_json piece int_codec_of text_codec
  valid_piece frame j w h l k = (
    w,
    (
      h,
      (
        tt,
        (
          lt→ltb (length frame) (2 ^ 63) (omega arith),
          (
            lt→ltb j (2 ^ 63) (omega arith),
            (
              lt→ltb (length (take size (drop j frame))) (2 ^ 63)
                  (omega (arith, length-take size (drop j frame), length-drop j frame)),
              (tt, (tt, tt)),
            ),
          ),
        ),
      ),
    ),
  )

  -- `Screenshot` on a client that has a protocol: where the node answers the capture with the first
  -- chunk of a frame, and each offset behind it with its chunk, whatever the size of the chunks but
  -- 0, the method returns the frame, byte for byte, if it has between 1 byte and 32 MiB.
  pub screenshot_served :
      (frame : Bytes) (s s' : S)
      → 0 < size
      → fits_int width ≡ true
      → fits_int height ≡ true
      → IsBytes frame
      → 0 < length frame
      → length frame ≤ max_screenshot_bytes
      → Serves capture (piece size width height format frame 0) s s'
      → ((j : ℕ)
          → j < length frame
          → Serves (from j) (piece size width height format frame j) s' s')
      → screenshot call (unmarshal parse screenshot_chunk_json) true s
        ≡ (ok (record { width = width; height = height; format = format; pixels = frame }), s')
  unfolding screenshot
  screenshot_served frame s s' positive w h bytes some_bytes k first more =
      assemble_served size width height format
        (fetch_chunk call (unmarshal parse screenshot_chunk_json) true) frame s s' positive bytes
        some_bytes k
        (fetch_served capture (piece size width height format frame 0) s s'
          (valid_piece frame 0 w h (omega arith) k) first)
        (λ j l.
          fetch_served (from j) (piece size width height format frame j) s' s'
            (valid_piece frame j w h (omega arith) k) (more j l))
