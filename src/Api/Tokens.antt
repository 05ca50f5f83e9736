-- ===== src/Api/Tokens.antt =====
-- apps/api/src/tokens/token-enrichment.service.ts: what is stored about a token.
pub mod Enrichment
use swyft.Prelude.{ℕ, String, Option, none, some}
use swyft.Prelude.Equality.{string_eq}
use swyft.Prelude.Table.{find, upsert}
use swyft.Api.Indexer.Database.{Token, Db, Write}

-- What the network and the token list say of a token: both are services outside the repository.
pub record Metadata : Type 0 where
  pub symbol : Option String
  pub name : Option String
  pub decimals : Option ℕ

pub record TokenListEntry : Type 0 where
  pub symbol : Option String
  pub name : Option String
  pub decimals : Option ℕ
  pub logo_uri : Option String

pub record TokenSources : Type 0 where
  pub on_chain : String → Metadata
  pub listed : String → TokenListEntry

-- JavaScript's `??`
infixr 40 ◌or_try◌
abbrev pub ◌or_try◌ {ℓ} : {A : Type ℓ} → Option A → Option A → Option A
none or_try y = y
some x or_try y = some x

abbrev pub or_else {ℓ} : {A : Type ℓ} → Option A → A → A
or_else none y = y
or_else (some x) y = x

abbrev pub field {ℓ κ} : {A : Type ℓ} {B : Type κ} → (A → B) → Option A → Option B
field f none = none
field f (some x) = some (f x)

unfoldable pub enriched : TokenSources → String → Option Token → Token
enriched sources address existing =
    let chain = sources.on_chain address in
    let entry = sources.listed address in
    record {
      symbol =
          or_else (chain.symbol or_try entry.symbol or_try field (λ t. t.symbol) existing)
            "UNKNOWN";
      name = or_else (chain.name or_try entry.name or_try field (λ t. t.name) existing) address;
      decimals =
          or_else (chain.decimals or_try entry.decimals or_try field (λ t. t.decimals) existing) 7;
      logo_uri = entry.logo_uri or_try or_else (field (λ t. t.logo_uri) existing) none;
    }

-- `upsertToken` of the enrichment.
unfoldable pub upsert_token : TokenSources → String → Write
upsert_token sources address db =
    let token = enriched sources address (find address db.tokens) in
    some (record db { tokens = upsert address (λ _. token) token db.tokens })
