-- ===== src/Provider/SigV4.antt =====
-- internal/provider/sigv4.go: the AWS signature of a request, over SHA-256, HMAC and the text of the
-- clock, and the encoding of a path segment. A text is its bytes.
use riskkernel.Base.{
  ℕ, ◌+◌, ◌/◌, ◌%◌, ltb, leb, ◌==◌, codes, trim_space, Runes, is_nil, Bool, true, false, ◌&&◌, ◌||◌,
  List, [], ◌∷◌, ◌++◌, if◌then◌else◌,
}
use riskkernel.Provider.Bedrock.{Credentials}

-- `hmacSHA256`, `hexSHA256` and `hex.EncodeToString`.
pub record Digest : Type 0 where
  pub hmac : Runes → Runes → Runes
  pub hex_sha256 : Runes → Runes
  pub hex : Runes → Runes

-- The parts of a request that are signed; `amz_date` and `date_stamp` are the clock's two texts.
pub record Signable : Type 0 where
  pub verb : Runes
  pub host : Runes
  pub escaped_path : Runes
  pub raw_query : Runes
  pub content_type : Runes
  pub body : Runes
  pub amz_date : Runes
  pub date_stamp : Runes

-- `s < t` on strings.
unfoldable pub text_before : Runes → Runes → Bool
text_before s [] = false
text_before [] (d ∷ t) = true
text_before (c ∷ s) (d ∷ t) =
    let rest = text_before s t in if ltb c d then true else if c == d then rest else false

-- `sort.Strings` on the names, each with its value.
unfoldable pub insert_header : Runes × Runes → List (Runes × Runes) → List (Runes × Runes)
unfolding text_before
insert_header h [] = h ∷ []
insert_header h (g ∷ gs) =
    let rest = insert_header h gs in if text_before g.0 h.0 then g ∷ rest else h ∷ g ∷ gs

unfoldable pub sort_headers : List (Runes × Runes) → List (Runes × Runes)
unfolding insert_header
sort_headers [] = []
sort_headers (h ∷ hs) = insert_header h (sort_headers hs)

-- The headers that are signed, in the order of their names.
abbrev pub header_if : Runes → Runes → List (Runes × Runes)
header_if name value = if is_nil value then [] else (name, value) ∷ []

unfoldable pub signed : Signable → Credentials → List (Runes × Runes)
unfolding sort_headers
signed req creds = sort_headers (
    ((codes "host", req.host) ∷ (codes "x-amz-date", req.amz_date) ∷ [])
    ++ (header_if (codes "content-type") req.content_type
        ++ header_if (codes "x-amz-security-token") creds.session_token))

abbrev pub canonical_headers : List (Runes × Runes) → Runes
canonical_headers [] = []
canonical_headers ((name, value) ∷ hs) =
    (name ++ (b':' ∷ (trim_space value ++ (10 ∷ [])))) ++ canonical_headers hs

-- `strings.Join` of texts with one character between them.
unfoldable pub join_texts : ℕ → List Runes → Runes
join_texts c [] = []
join_texts c (t ∷ []) = t
join_texts c (t ∷ u ∷ ts) = t ++ (c ∷ join_texts c (u ∷ ts))

abbrev pub names : List (Runes × Runes) → List Runes
names [] = []
names ((name, value) ∷ hs) = name ∷ names hs

abbrev pub or_slash : Runes → Runes
or_slash path = if is_nil path then codes "/" else path

module _ ⦃H : Digest⦄ where
  unfoldable pub canonical_request : Signable → Credentials → Runes
  unfolding signed join_texts
  canonical_request req creds = join_texts 10 (
      req.verb
      ∷ or_slash req.escaped_path
      ∷ req.raw_query
      ∷ canonical_headers (signed req creds)
      ∷ join_texts b';' (names (signed req creds))
      ∷ H.hex_sha256 req.body
      ∷ [])

  abbrev pub scope : Signable → Runes → Runes → Runes
  scope req region service =
      req.date_stamp ++ (b'/' ∷ (region ++ (b'/' ∷ (service ++ codes "/aws4_request"))))

  abbrev pub signing_key : Signable → Credentials → Runes → Runes → Runes
  signing_key req creds region service =
      let k_date = H.hmac (codes "AWS4" ++ creds.secret_key) req.date_stamp in
      let k_region = H.hmac k_date region in
      let k_service = H.hmac k_region service in H.hmac k_service (codes "aws4_request")

  -- `signV4`: the Authorization header.
  unfoldable pub sign_v4 : Signable → Credentials → Runes → Runes → Runes
  unfolding canonical_request signed join_texts
  sign_v4 req creds region service =
      let to_sign = join_texts 10 (
        codes "AWS4-HMAC-SHA256"
        ∷ req.amz_date
        ∷ scope req region service
        ∷ H.hex_sha256 (canonical_request req creds)
        ∷ []) in
      let signature = H.hex (H.hmac (signing_key req creds region service) to_sign) in
      codes "AWS4-HMAC-SHA256 "
      ++ (codes "Credential="
          ++ (creds.access_key
              ++ (b'/'
                  ∷ (scope req region service
                      ++ (codes ", SignedHeaders="
                          ++ (join_texts b';' (names (signed req creds))
                              ++ (codes ", Signature=" ++ signature)))))))

-- `awsURIEncodeSegment`, byte by byte.
abbrev pub is_unreserved : ℕ → Bool
is_unreserved c =
    (leb b'A' c && leb c b'Z')
    || ((leb b'a' c && leb c b'z')
        || ((leb b'0' c && leb c b'9')
            || ((c == b'-') || ((c == b'_') || ((c == b'.') || (c == b'~'))))))

abbrev pub hex_digit : ℕ → ℕ
hex_digit n = if ltb n 10 then n + 48 else n + 55

unfoldable pub uri_encode : Runes → Runes
uri_encode [] = []
uri_encode (c ∷ s) =
    if is_unreserved c
    then c ∷ uri_encode s
    else b'%' ∷ hex_digit (c / 16) ∷ hex_digit (c % 16) ∷ uri_encode s
