-- ===== src/Http/Response/Printed.antt =====
-- What a response printed by http/HttpResponse.h consists of.
use matelib.Prelude.{
  ℕ, ◌≡◌, refl, Bool, true, false, List, [], ◌∷◌, ◌++◌, Option, some, ◌>>=◌, length, append_assoc,
  append-nil,
}
use matelib.Prelude.Text.{codes, decimal, StringMap}
use matelib.Buffer.{Buffer, append, crlf}
use matelib.Buffer.Contents.{Holds}
use matelib.Buffer.Grow.{append-Holds}
use matelib.Http.Response.{
  HttpResponse, status_number, version_number, in_buf, append_headers, append_connection,
  append_to_buffer,
}

-- A step that appends `bytes` to whatever the buffer holds.
abbrev pub Appends : (Buffer → Option Buffer) → List ℕ → Type 0
Appends f bytes =
    (b : Buffer) (s : List ℕ) → Holds b s → (b' : Buffer) × (f b ≡ some b') × Holds b' (s ++ bytes)

append-Appends : (bytes : List ℕ) → Appends (λ b. append b bytes) bytes
append-Appends bytes b s h = append-Holds bytes h

then-Appends :
    (f g : Buffer → Option Buffer) (xs ys : List ℕ)
    → Appends f xs
    → Appends g ys
    → Appends (λ b. f b >>= g) (xs ++ ys)
then-Appends f g xs ys hf hg b s h =
    let (b₁, e₁, h₁) = hf b s h in
    let (b₂, e₂, h₂) = hg b₁ (s ++ xs) h₁ in (b₂, rw e₁ e₂, rw (append_assoc s xs ys) at h₂)

abbrev pub printed_headers : StringMap → List ℕ
printed_headers [] = []
printed_headers ((field, value) ∷ headers) =
    field ++ (codes ": " ++ (value ++ (crlf ++ printed_headers headers)))

append_headers-Appends :
    (headers : StringMap) → Appends (append_headers headers) (printed_headers headers)
unfolding append_headers
append_headers-Appends [] b s h = (b, refl, rw append-nil h)
append_headers-Appends ((field, value) ∷ headers) b s h =
    then-Appends (λ b. append b field) _ field _ (append-Appends field)
      (then-Appends (λ b. append b (codes ": ")) _ (codes ": ") _ (append-Appends (codes ": "))
        (then-Appends (λ b. append b value) _ value _ (append-Appends value)
          (then-Appends (λ b. append b crlf) (append_headers headers) crlf (printed_headers headers)
            (append-Appends crlf) (append_headers-Appends headers))))
      b s h

abbrev pub printed_connection : HttpResponse → Bool → List ℕ
printed_connection r true = codes "Connection: close" ++ crlf
printed_connection r false =
    in_buf (codes "Content-Length: " ++ (decimal (length r.body) ++ crlf))
    ++ (codes "Connection: Keep-Alive" ++ crlf)

append_connection-Appends :
    (r : HttpResponse) (close : Bool)
    → Appends (append_connection r close) (printed_connection r close)
unfolding append_connection
append_connection-Appends r true b s h = append-Holds _ h
append_connection-Appends r false b s h =
    then-Appends
      (λ b. append b (in_buf (codes "Content-Length: " ++ (decimal (length r.body) ++ crlf))))
      (λ b. append b (codes "Connection: Keep-Alive" ++ crlf)) _ _ (append-Appends _)
      (append-Appends _) b s h

abbrev pub printed_status : HttpResponse → List ℕ
printed_status r = in_buf (
    codes "HTTP/1."
    ++ (version_number r.version ++ (codes " " ++ decimal (status_number r.status_code))))

abbrev pub printed : HttpResponse → List ℕ
printed r =
    printed_status r
    ++ (r.status_message
        ++ (crlf
            ++ (printed_connection r r.close_connection
                ++ (printed_headers r.headers ++ (crlf ++ r.body)))))

-- On a well-formed buffer `append_to_buffer` never fails, and puts behind the unread bytes the
-- status line cut to 31 bytes and its message, the connection lines, each header on a line of
-- its own, an empty line and the body.
pub append_to_buffer-Appends :
    {b : Buffer} {s : List ℕ} (r : HttpResponse)
    → Holds b s
    → (b' : Buffer) × (append_to_buffer r b ≡ some b') × Holds b' (s ++ printed r)
unfolding append_to_buffer
append_to_buffer-Appends {b} {s} r =
    then-Appends (λ b. append b (printed_status r)) _ (printed_status r) _ (append-Appends _)
      (then-Appends (λ b. append b r.status_message) _ r.status_message _ (append-Appends _)
        (then-Appends (λ b. append b crlf) _ crlf _ (append-Appends _)
          (then-Appends (append_connection r r.close_connection) _ _ _
            (append_connection-Appends r r.close_connection)
            (then-Appends (append_headers r.headers) _ _ _ (append_headers-Appends r.headers) (
              then-Appends (λ b. append b crlf) (λ b. append b r.body) crlf r.body
                (append-Appends _) (append-Appends _))))))
      b s
