-- ===== src/Screenshot/Tests.antt =====
-- Runs of screenshot.go against a device with a frame of five bytes.
use bramble_go.Prelude.{
  ℕ, ◌+◌, true, zero, suc, ◌≡◌, ◌≢◌, refl, arith, Bytes, [], ◌∷◌, codes, pos, ok, err, Option, some,
  Result,
}
use bramble_go.Base64
use bramble_go.Screenshot.{Chunk, Screenshot, capture, assemble_screenshot, out_of_fuel}
use bramble_go.Client
use bramble_go.Protocol.{CallError}
use bramble_go.Json.{Json}
use bramble_go.Json.Struct.{encode_struct}
use bramble_go.Wire.Reading.{unmarshal}
use bramble_go.Screenshot.Frame.{Device, serve, piece}
use bramble_go.Screenshot.Remote.{screenshot_chunk_json, screenshot, screenshot_served}
use bramble_go.Screenshot.Whole.{
  Announced, assemble_screenshot_terminates, assemble_screenshot_whole,
}

abbrev screen : ℕ → Bytes
screen zero = 1 ∷ 2 ∷ 3 ∷ 4 ∷ 255 ∷ []
screen (suc n) = 9 ∷ []

abbrev fresh : Device
fresh = record { captures = 0; held = [] }

abbrev shot : Screenshot
shot = record { width = pos 5; height = pos 1; format = codes "gray"; pixels = screen 0 }

assemble_screenshot_terminates_example :
    (assemble_screenshot {F = ℕ} (serve 2 (pos 5) (pos 1) (codes "gray") screen) fresh).0
    ≢ err out_of_fuel
assemble_screenshot_terminates_example =
    assemble_screenshot_terminates (serve 2 (pos 5) (pos 1) (codes "gray") screen) fresh

taken :
    (assemble_screenshot {F = ℕ} (serve 2 (pos 5) (pos 1) (codes "gray") screen) fresh).0 ≡ ok shot
unfolding assemble_screenshot serve Base64.decode_string Base64.encode
taken = refl

assemble_screenshot_whole_example :
    (first : Chunk) × ((serve 2 (pos 5) (pos 1) (codes "gray") screen {F = ℕ} capture fresh).0
      ≡ ok first)
    × Announced first shot
assemble_screenshot_whole_example =
    assemble_screenshot_whole (serve 2 (pos 5) (pos 1) (codes "gray") screen) fresh shot taken

-- A node that answers a capture with an empty text, and an offset with itself.
abbrev node : Bytes → Client.Params ℕ → ℕ → Result CallError Bytes × ℕ
node method (some ((k, Client.int (pos j)) ∷ [])) s = (ok (j ∷ []), s)
node method _ s = (ok [], s + 1)

abbrev chunk_at : ℕ → Option (Json ℕ)
chunk_at j = some (
    encode_struct screenshot_chunk_json.fields
      (piece 2 (pos 5) (pos 1) (codes "gray") (screen 0) j))

abbrev parse : Bytes → Option (Json ℕ)
parse (j ∷ s) = chunk_at j
parse _ = chunk_at 0

screenshot_served_example :
    screenshot node (unmarshal parse screenshot_chunk_json) true 6 ≡ (ok shot, 7)
screenshot_served_example =
    screenshot_served parse node 2 (pos 5) (pos 1) (codes "gray") (screen 0) 6 7 (omega arith) refl
      refl (omega arith) (omega arith) (omega arith) ([], refl, refl) (λ j l. (j ∷ [], refl, refl))
