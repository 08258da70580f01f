-- ===== src/WebServer/Request.antt =====
-- buffet/webserv_client.cc: RequestImpl::GetData, which reads the body of a request once.
use mathlib.Core.List.{append_assoc, append-nil}
use rockchip_android_system.Prelude.{
  ℕ, zero, suc, ◌+◌, ◌≡◌, ◌<◌, refl, sym, ap, ◌∙◌, Option, none, some, List, [], ◌∷◌, ◌++◌, arith,
  length,
}

-- brillo::Stream, for the reading of bytes: `none` is a failed read.
pub record ByteStream : Type 1 where
  pub Stream : Type 0
  pub read_blocking : ℕ → Stream → Option (List ℕ) × Stream

-- The size of the buffer, 16 KB.
abbrev pub buffer_size : ℕ
buffer_size = 16384

module _ ⦃bytes : ByteStream⦄ where
  -- The loop of GetData; `none` when the fuel is spent.
  unfoldable pub read_all : ℕ → bytes.Stream → List ℕ → Option (bytes.Stream × List ℕ)
  read_all zero s read = none
  read_all (suc fuel) s read =
      let (answer, s') = bytes.read_blocking buffer_size s in
      elim answer [
        | none ↦ some (s', read)
        | some [] ↦ some (s', read)
        | some (b ∷ bs) ↦ read_all fuel s' (read ++ b ∷ bs)
      ]

  -- RequestImpl: its data stream, if there is one, and the cached data.
  pub record RequestImpl : Type 0 where
    pub stream : Option bytes.Stream
    pub request_data : Option (List ℕ)

  -- RequestImpl::GetData.
  unfoldable pub get_data : ℕ → RequestImpl → Option (RequestImpl × List ℕ)
  unfolding read_all
  get_data fuel r = elim r.request_data [
    | some read ↦ some (r, read)
    | none ↦ elim r.stream [
      | none ↦ some (record r { request_data = some [] }, [])
      | some s ↦ elim (read_all fuel s []) [
        | none ↦ none
        | some (s', read) ↦ some (record { stream = some s'; request_data = some read }, read)
      ]
    ]
  ]

  -- A stream whose reads do not fail, each giving the next part of the rest, and nothing only at
  -- the end.
  pub record Reads (content : bytes.Stream → List ℕ) : Type 0 where
    pub next_part :
        (n : ℕ) (s : bytes.Stream)
        → (part : List ℕ) × ((bytes.read_blocking n s).0 ≡ some part)
          × (content s ≡ part ++ content (bytes.read_blocking n s).1)
    pub end_only :
        (n : ℕ) (s : bytes.Stream) → 0 < n → (bytes.read_blocking n s).0 ≡ some [] → content s ≡ []

  -- The body of a request.
  abbrev pub body : (bytes.Stream → List ℕ) → Option bytes.Stream → List ℕ
  body content none = []
  body content (some s) = content s

  length-append : (xs ys : List ℕ) → length (xs ++ ys) ≡ length xs + length ys
  length-append [] ys = omega arith
  length-append (x ∷ xs) ys = omega (arith, length-append xs ys)

  -- One round, where the rest of the loop reads what is left.
  read_all_round :
      (content : bytes.Stream → List ℕ) (fuel : ℕ) (s : bytes.Stream) (read part : List ℕ)
      → let s' = (bytes.read_blocking buffer_size s).1 in
        (bytes.read_blocking buffer_size s).0 ≡ some part
        → content s ≡ part ++ content s'
        → (part ≡ [] → content s ≡ [])
        → length (content s) < suc fuel
        → ((read' : List ℕ)
            → length (content s') < fuel
            → (t : bytes.Stream) × (read_all fuel s' read' ≡ some (t, read' ++ content s')))
        → (t : bytes.Stream) × (read_all (suc fuel) s read ≡ some (t, read ++ content s))
  unfolding read_all
  read_all_round content fuel s read [] gives splits end less rest =
      ((bytes.read_blocking buffer_size s).1, rw (gives, read_all, end refl, append-nil) refl)
  read_all_round content fuel s read (b ∷ bs) gives splits end less rest =
      let s' = (bytes.read_blocking buffer_size s).1 in
      let shorter : length (content s') < fuel =
        omega (arith, less, ap length splits, length-append (b ∷ bs) (content s')) in
      let (t, e) = rest (read ++ b ∷ bs) shorter in
      let next : read_all (suc fuel) s read ≡ read_all fuel s' (read ++ b ∷ bs) =
        rw (gives, read_all) refl in
      let all = append_assoc read (b ∷ bs) (content s') ∙ ap (λ c. read ++ c) (sym splits) in
      (t, next ∙ e ∙ ap (λ c. some (t, c)) all)

  read_all-Reads :
      (content : bytes.Stream → List ℕ) (fuel : ℕ) (s : bytes.Stream) (read : List ℕ)
      → Reads content
      → length (content s) < fuel
      → (t : bytes.Stream) × (read_all fuel s read ≡ some (t, read ++ content s))
  read_all-Reads content zero s read law less = absurd (omega (arith, less))
  read_all-Reads content (suc fuel) s read law less =
      let (part, gives, splits) = law.next_part buffer_size s in
      let s' = (bytes.read_blocking buffer_size s).1 in
      read_all_round content fuel s read part gives splits
        (λ e. law.end_only buffer_size s (omega arith) (gives ∙ ap some e)) less
        (λ read' shorter. read_all-Reads content fuel s' read' law shorter)

  -- GetData ends and gives the whole body: if the reads of the stream do not fail and give the body
  -- in parts, none of them empty before its end, then, with more fuel than the body has bytes, the
  -- first call gives the body, and any later call gives it again, with any fuel and without
  -- reading. A request with no stream has the empty body.
  pub get_data_lem :
      (content : bytes.Stream → List ℕ) (fuel again : ℕ) (stream : Option bytes.Stream)
      → Reads content
      → length (body content stream) < fuel
      → (r : RequestImpl) × (get_data fuel (record { stream = stream; request_data = none })
          ≡ some (r, body content stream))
        × (get_data again r ≡ some (r, body content stream))
  unfolding get_data
  get_data_lem content fuel again none law less =
      (record { stream = none; request_data = some [] }, refl, refl)
  get_data_lem content fuel again (some s) law less =
      let (t, e) = read_all-Reads content fuel s [] law less in
      (record { stream = some t; request_data = some (content s) }, rw (e, get_data) refl, refl)
