-- ===== src/Sdk/Http/Url.antt =====
-- The URL and the credential of a request of packages/sdk/src/http.ts. The text of `URLSearchParams`
-- is an argument.
use riskrail.Base.{String, Option, none, some, [], ◌∷◌, Dict, insert, ◌==◌ as nat_eq, if◌then◌else◌}
use Prim.Native.Char.{code}
use riskrail.Base.Text.{is_empty, join, starts_with}

-- `text.replace(/\/+$/, '')`
abbrev pub without_slashes : String → String
without_slashes String.[] = String.[]
without_slashes (String.◌∷◌ c s) =
    let rest = without_slashes s in
    if nat_eq (code c) 47
    then (if is_empty rest then String.[] else String.◌∷◌ c rest)
    else String.◌∷◌ c rest

-- the parameters that have a value
unfoldable pub given_parameters : Dict (Option String) → Dict String → Dict String
unfolding insert
given_parameters [] params = params
given_parameters ((key, none) ∷ rest) params = given_parameters rest params
given_parameters ((key, some value) ∷ rest) params = given_parameters rest (insert key value params)

-- a path with a slash in front
abbrev pub with_slash : String → String
with_slash path = if starts_with "/" path then path else join "/" path

-- `url`
unfoldable pub url :
    (form : Dict String → String) → (base path : String) → Option (Dict (Option String)) → String
unfolding given_parameters
url form base path none = join (without_slashes base) (with_slash path)
url form base path (some query) =
    let address = join (without_slashes base) (with_slash path) in
    let text = form (given_parameters query []) in
    if is_empty text then address else join address (join "?" text)

-- `authHeader`: a token of the session wins over the key
unfoldable pub auth_header : (token api_key : Option String) → Option String
auth_header none none = none
auth_header none (some key) = if is_empty key then none else some (join "Bearer " key)
auth_header (some token) api_key = if is_empty token then none else some (join "Bearer " token)
