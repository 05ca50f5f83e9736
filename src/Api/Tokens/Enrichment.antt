-- ===== src/Api/Tokens/Enrichment.antt =====
-- What an enrichment keeps of a token that is already stored.
use swyft.Prelude.{◌≡◌, refl, String, Option, none, some}
use swyft.Prelude.Equality.{string_eq}
use swyft.Api.Indexer.Database.{Token}
use swyft.Api.Tokens.{TokenSources, ◌or_try◌, or_else, field, enriched}

-- An answer that neither the network nor the token list gives.
abbrev pub Unanswered : TokenSources → String → Type 0
Unanswered sources address =
    ((sources.on_chain address).symbol ≡ none)
    × ((sources.listed address).symbol ≡ none)
    × ((sources.on_chain address).name ≡ none)
    × ((sources.listed address).name ≡ none)
    × ((sources.on_chain address).decimals ≡ none)
    × ((sources.listed address).decimals ≡ none)
    × ((sources.listed address).logo_uri ≡ none)

-- Where neither the network nor the token list knows anything of a token, enrichment leaves a stored
-- token as it is.
pub enriched_unknown :
    (sources : TokenSources) (address : String) (token : Token)
    → Unanswered sources address
    → enriched sources address (some token) ≡ token
unfolding enriched
enriched_unknown sources address token (a, b, c, d, e, f, g) = rw (a, b, c, d, e, f, g)

or_try_again {ℓ} :
    {A : Type ℓ} (x y z : Option A) (d : A)
    → or_else (x or_try y or_try some (or_else (x or_try y or_try z) d)) d
      ≡ or_else (x or_try y or_try z) d
or_try_again none none none d = refl
or_try_again none none (some _) d = refl
or_try_again none (some _) z d = refl
or_try_again (some _) y z d = refl

or_try_last {ℓ} : {A : Type ℓ} (x y : Option A) → (x or_try (x or_try y)) ≡ (x or_try y)
or_try_last none y = refl
or_try_last (some _) y = refl

-- Enriching a token a second time with the same answers gives the same token.
pub enriched_again :
    (sources : TokenSources) (address : String) (before : Option Token)
    → enriched sources address (some (enriched sources address before))
      ≡ enriched sources address before
unfolding enriched
enriched_again sources address before =
    let chain = sources.on_chain address in
    let entry = sources.listed address in
    rw (
      or_try_again chain.symbol entry.symbol (field (λ t. t.symbol) before) "UNKNOWN",
      or_try_again chain.name entry.name (field (λ t. t.name) before) address,
      or_try_again chain.decimals entry.decimals (field (λ t. t.decimals) before) 7,
      or_try_last entry.logo_uri (or_else (field (λ t. t.logo_uri) before) none),
    )
