-- ===== src/Http/Validator.antt =====
-- `newValidator` of internal/httpapi/validate.go: whether a contract gives a validator.
use gowallet.Prelude.{
  String, ◌≡◌, refl, ◌⊎◌, inl, inr, Option, none, some, Result, ok, err, Option-cases, Result-cases,
}

-- What it uses of github.com/getkin/kin-openapi: LoadFromData gives a document, named by a text, or an
-- error, and Validate may find fault with the document.
pub record OpenApi : Type 0 where
  pub load : String → Result String String
  pub validate : String → Option String

abbrev validated : Option String → Result String (Unit {0})
validated none = ok tt
validated (some text) = err text

abbrev loaded : OpenApi → Result String String → Result String (Unit {0})
loaded openapi (err text) = err text
loaded openapi (ok doc) = validated (openapi.validate doc)

-- `newValidator`; the middleware that it returns is `validate` of the router.
unfoldable pub new_validator : OpenApi → String → Result String (Unit {0})
new_validator openapi spec_yaml = loaded openapi (openapi.load spec_yaml)

-- kin-openapi loads the contract and finds no fault with it.
abbrev pub IsSound : OpenApi → String → Type 0
IsSound openapi yaml = (doc : String) × (openapi.load yaml ≡ ok doc) × (openapi.validate doc ≡ none)

-- It cannot load it, or finds fault with it.
abbrev pub IsBroken : OpenApi → String → String → Type 0
IsBroken openapi yaml text =
    (openapi.load yaml ≡ err text)
    ⊎ ((doc : String) × (openapi.load yaml ≡ ok doc) × (openapi.validate doc ≡ some text))

pub new_validator_cases :
    (openapi : OpenApi) (yaml : String)
    → ((new_validator openapi yaml ≡ ok tt) × IsSound openapi yaml)
      ⊎ ((text : String) × (new_validator openapi yaml ≡ err text) × IsBroken openapi yaml text)
unfolding new_validator
new_validator_cases openapi yaml = elim (Result-cases (openapi.load yaml)) [
  | inr (text, unread) ↦ rw unread (inr (text, refl, inl refl))
  | inl (doc, read) ↦ elim (Option-cases (openapi.validate doc)) [
    | inl valid ↦ rw (read, valid) (inl (refl, (doc, refl, valid)))
    | inr (text, fault) ↦ rw (read, fault) (inr (text, refl, inr (doc, refl, fault)))
  ]
]
