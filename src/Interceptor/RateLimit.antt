-- ===== src/Interceptor/RateLimit.antt =====
-- interceptor/rate_limiter.go and infra/jwt.go: the wrappers that may refuse a call. The limiter
-- behind redis and the library that parses tokens are parameters.
use Prim.Native.String.{◌++◌ as ◌<>◌}
use Prim.Native.Char.{Char}
use lunaship.Base.{
  String, true, false, Option, none, some, List, [], ◌∷◌, Result, ok, err, if◌then◌else◌, ◌==◌,
}
use lunaship.Base.Int.{ℤ, pos, leb_ℤ}
use lunaship.Base.Text.{trim_space, split}
use lunaship.Base.Scan.{trim_prefix}
use lunaship.Kafka.Headers.{get_header}
use lunaship.Interceptor.{Request, Process, UnaryFunc}

-- connect.Error, as far as these wrappers make one.
pub data ConnectError (E : Type 0) : Type 0 where
  unavailable : E → ConnectError E
  resource_exhausted : ConnectError E
  other : E → ConnectError E

abbrev first_piece : List String → String
first_piece [] = ""
first_piece (p ∷ ps) = p

-- The key of a call: the peer's address before its first colon, and the procedure.
unfoldable pub limit_key : Request → String
limit_key req = first_piece (split ":" req.peer_addr) <> "#" <> req.procedure

abbrev put_app : {S E : Type 0} → Process S E → S → Process S E
put_app p s = record p { app = s }

-- The token of an Authorization header.
unfoldable pub bearer_token : String → String
bearer_token raw = trim_space (trim_prefix raw "Bearer ")

module _ {S E R : Type 0} where
  -- NewQPSRateLimiter; `allow` answers an error, or the number of calls that are allowed, and may
  -- change the state.
  unfoldable pub rate_limited :
      (String → S → Result E ℤ × S)
      → UnaryFunc S (ConnectError E) R
      → UnaryFunc S (ConnectError E) R
  rate_limited allow next ctx req p =
      let answer = allow (limit_key req) p.app in
      elim answer.0 [
        | err e ↦ (err (unavailable e), put_app p answer.1)
        | ok allowed ↦ elim (leb_ℤ allowed (pos 0)) [
          | true ↦ (err resource_exhausted, put_app p answer.1)
          | false ↦ next ctx req (put_app p answer.1)
        ]
      ]

  -- MiddlewareJWTAuth for a secret that is not blank; `parse` answers the error of ParseToken.
  unfoldable pub authenticated :
      (Char → Char)
      → (secret : String) → (String → String → Option E)
      → UnaryFunc S E R
      → UnaryFunc S E R
  authenticated fold secret parse next ctx req p =
      elim (parse secret (bearer_token (get_header fold req.headers "Authorization"))) [
        | some e ↦ (err e, p)
        | none ↦ next ctx req p
      ]

-- What jwt.Parse hands to the key function: the signing method of the token.
pub data SigningMethod : Type 0 where
  hmac : (name : String) → SigningMethod
  no_hmac : SigningMethod

-- The key function of ParseToken: the secret, for HS256 only.
unfoldable pub token_key : (secret : String) → SigningMethod → Option String
token_key secret no_hmac = none
token_key secret (hmac name) = if name == "HS256" then some secret else none

-- SignJWT; `sign` signs the claims with HS256 and a key.
unfoldable pub sign_jwt :
    {E P : Type 0} → (sign : P → String → Result E String) → (String → String) → P → Result E String
sign_jwt sign env payload = sign payload (env "JWT_MAILBOX_KEY")
