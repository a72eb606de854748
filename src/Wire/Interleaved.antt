-- ===== src/Wire/Interleaved.antt =====
-- client.go over protocol.go: what a method that reads a struct of types.go returns while other
-- calls are under way.
use bramble_go.Prelude.{
  ◌≡◌, ◌≢◌, refl, ap, ◌∙◌, sym, ℕ, List, Option, none, some, Bytes, Result, ok, err, or_err, All,
  ◌⊎◌, inl, inr,
}
use mathlib.Core.Path.{subst}
use bramble_go.Protocol.{
  RpcError, CallError, marshal_failed, send_failed, rpc_failed, cancelled, closed, Request,
  Response, Event, State, new_protocol, returned, call_id, run,
}
use bramble_go.Protocol.Answers.{From}
use bramble_go.Protocol.Correlation.{Admits, call_answered_by_own_response}
use bramble_go.Client.{Params, query, invoke, decode_failed, Error}
use bramble_go.Json.{Json}
use bramble_go.Json.Struct.{encode_struct}
use bramble_go.Json.Laws.{Struct, AllValid}
use bramble_go.Wire.Reading.{unmarshal, unmarshal_written}

module _ {F T : Type 0} (parse : Bytes → Option (Json F)) (wire : Struct F T) where
  -- A message with the id of call `n` is no error, and its result has the members of `t`.
  abbrev pub Says : ℕ → T → Response → Type 0
  Says n t m =
      m.id ≡ some (call_id n)
      → (m.error ≡ none) × (parse m.result ≡ some (encode_struct wire.fields t))

-- A method that decodes a `name`.
module _ {F T G S : Type 0} (parse : Bytes → Option (Json F)) (wire : Struct F T)
    (method name : Bytes) (params : Params G) (w : S) where
  -- what the method returns where its call returns `r`
  abbrev pub outcome : Result CallError Bytes → Result Error T × S
  outcome r = query (λ m p s. (r, s)) method params name (unmarshal parse wire) w

  -- The method returns `t`, or an error that does not come from the node.
  abbrev pub ReadsOwn : T → Result CallError Bytes → Type 0
  ReadsOwn t r =
      (outcome r ≡ (ok t, w))
      ⊎ ((e : CallError) × (r ≡ err e)
          × (outcome r ≡ (err (Error.call_failed e), w))
          × ((x : RpcError) → e ≢ rpc_failed x))

  From-ReadsOwn :
      (n : ℕ) (t : T) (r : Result CallError Bytes)
      → AllValid wire.fields t
      → From (Says parse wire n t) n r
      → ReadsOwn t r
  unfolding query invoke
  From-ReadsOwn n t (ok r) v (m, (i, reply, says), fine, result) =
      let written = subst (λ x. parse x ≡ some (encode_struct wire.fields t)) result (says i).1 in
      inl
        (ap (λ o. (or_err o (decode_failed name), w)) (unmarshal_written parse wire t r v written))
  From-ReadsOwn n t (err (rpc_failed x)) v (m, (i, reply, says), bad) =
      let clash : none ≡ some x = sym (says i).0 ∙ bad in absurd (cc clash)
  From-ReadsOwn n t (err marshal_failed) v h = inr (marshal_failed, refl, refl, λ x e. cc)
  From-ReadsOwn n t (err (send_failed y)) v h = inr (send_failed y, refl, refl, λ x e. cc)
  From-ReadsOwn n t (err cancelled) v h = inr (cancelled, refl, refl, λ x e. cc)
  From-ReadsOwn n t (err closed) v h = inr (closed, refl, refl, λ x e. cc)

  -- However calls, their responses and notifications interleave: if the node answers the id of a
  -- call with the members of `t` only, and the values of `t` survive being written and read, the
  -- method that made the call returns `t` or an error that does not come from the node.
  pub query-ReadsOwn :
      {P : Type 0} (marshal : Request P → Option Bytes) (envelope : Bytes → Option Response)
      (es : List (Event P)) (s : State) (n : ℕ) (t : T) (r : Result CallError Bytes)
      → All (Admits (Says parse wire n t) marshal envelope) es
      → run marshal envelope es new_protocol ≡ some s
      → (s.calls n).stage ≡ returned r
      → AllValid wire.fields t
      → ReadsOwn t r
  query-ReadsOwn marshal envelope es s n t r a h done v =
      From-ReadsOwn n t r v
        (call_answered_by_own_response (Says parse wire n t) marshal envelope es s n r a h done)
