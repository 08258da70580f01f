-- ===== src/Http/Answers.antt =====
-- buffet/http_transport_client.cc: the one answer of each request.
use rockchip_android_system.Prelude.{
  ℕ, ◌≡◌, refl, ◌⊎◌, inl, inr, arith, Option, none, some, List, [], ◌∷◌, ◌++◌, String, map,
  is_empty, if◌then◌else◌, ap, ◌∙◌, Option-cases,
}
use rockchip_android_system.Errors.{Chain, BrilloEntry, WeaveEntry, weave_entry, convert_to_weave}
use rockchip_android_system.Errors.Conversion.{entries, entries-convert_to_weave}
use rockchip_android_system.Http.{
  Response, Request, Answer, response, failure, on_success_callback, on_error_callback, Sending,
  requested, posted, send_request,
}

-- What the transport brings for a request: a response, or an error.
abbrev pub Reply : Type 0
Reply = Response ⊎ Chain BrilloEntry

-- The runs of callbacks, once the message loop and the transport have done their work.
abbrev pub answers : (Request → Reply) → Sending → List Answer
answers transport (posted a) = a ∷ []
answers transport (requested r callback) = elim (transport r) [
  | inl found ↦ on_success_callback callback found ∷ []
  | inr e ↦ on_error_callback callback e ∷ []
]

-- The callback of an answer, and the response or the errors, the outermost first.
abbrev pub told : Answer → ℕ × (Response ⊎ List WeaveEntry)
told (response callback r) = (callback, inl r)
told (failure callback e) = (callback, inr (entries e))

-- The errors of a chain as libweave sees them.
abbrev pub seen : Reply → Response ⊎ List WeaveEntry
seen (inl r) = inl r
seen (inr e) = inr (map weave_entry (entries e))

-- The body that a request for the text carries, or the error that refuses it.
abbrev pub body_of : String → Option (Chain BrilloEntry) → Option String ⊎ Chain BrilloEntry
body_of content refused =
    if is_empty content
    then inl none
    else elim refused [ none ↦ inl (some content) | some e ↦ inr e ]

append_nil : {A : Type 0} (xs : List A) → xs ++ [] ≡ xs
append_nil [] = refl
append_nil (x ∷ xs) = ap (λ ys. x ∷ ys) (append_nil xs)

converted :
    (e : Chain BrilloEntry) → entries (convert_to_weave e none) ≡ map weave_entry (entries e)
converted e = entries-convert_to_weave e none ∙ append_nil (map weave_entry (entries e))

replied :
    (callback : ℕ) (reply : Reply)
    → map told (elim reply [
      | inl found ↦ on_success_callback callback found ∷ []
      | inr e ↦ on_error_callback callback e ∷ []
    ])
      ≡ (callback, seen reply) ∷ []
unfolding on_success_callback on_error_callback
replied callback (inl found) = refl
replied callback (inr e) = ap (λ es. (callback, inr es) ∷ []) (converted e)

answered :
    (transport : Request → Reply) (r : Request) (callback : ℕ)
    → map told (answers transport (requested r callback)) ≡ (callback, seen (transport r)) ∷ []
answered transport r callback = replied callback (transport r)

-- SendRequest answers its callback exactly once. If there is a text and the request refuses it as
-- its body, the answer is that error; else it is what the transport brings for the request of the
-- method, the address and the headers, with the text as its body if it is not empty. Of an error
-- the callback sees every part of the chain, in its order, without the domains.
pub send_request_lem :
    (transport : Request → Reply) (method url : String) (headers : List (String × String))
    (content : String) (refused : Option (Chain BrilloEntry)) (callback : ℕ)
    → map told (answers transport (send_request method url headers content refused callback))
      ≡ (
        callback,
        elim (body_of content refused) [
          | inl body ↦
              seen
                (transport (record { url = url; method = method; headers = headers; body = body }))
          | inr e ↦ inr (map weave_entry (entries e))
        ],
      )
        ∷ []
unfolding send_request
send_request_lem transport method url headers content refused callback =
    let r : Option String → Request =
      λ body. record { url = url; method = method; headers = headers; body = body } in
    elim (Option-cases refused) [
      | inl accepted ↦ ground (
        arith,
        accepted,
        answered transport (r none) callback,
        answered transport (r (some content)) callback,
      )
      | inr (e, there) ↦ ground (arith, there, answered transport (r none) callback, converted e)
    ]
