-- ===== src/Doh/Service.antt =====
-- The interface `doh.Resolver`, which the relay, the stream socket and the probes use, and what it
-- promises them. The resolvers of proxy/doh and of proxy/dot implement it.
pub mod OverHttps
pub mod Stream
use localdns_go.Prelude.{
  ℕ, suc, ◌+◌, ◌≤◌, ◌<◌, ◌≡◌, ◌≢◌, Option, none, some, List, [], ◌∷◌, length, All,
}
use localdns_go.Prelude.Words.{Bytes}
use localdns_go.Split.Frames.Fragments.{IsByte}

-- What `Query` returns, and the caller's slice behind it.
pub record Answer (E : Type 0) : Type 0 where
  pub response : Option Bytes
  pub error : Option E
  pub query : Bytes

-- A resolver with states `S`, for what the environment `V` answers in one call. A panic is `none`.
pub record Service (S V E : Type 0) : Type 0 where
  pub query : V → Bytes → S → Option (Answer E × S)

-- The promises: an answer without an error carries the ID of the query, and a query that is too short
-- for an ID has an error and no response.
pub record KeepsId {S V E : Type 0} (s : Service S V E) : Type 0 where
  pub id_kept :
      (v : V) (h l : ℕ) (tail : Bytes) (st st' : S) (a : Answer E)
      → h < 256
      → l < 256
      → s.query v (h ∷ l ∷ tail) st ≡ some (a, st')
      → a.error ≡ none
      → (rest : Bytes) × (a.response ≡ some (h ∷ l ∷ rest))
  pub short_fails :
      (v : V) (q : Bytes) (st st' : S) (a : Answer E)
      → length q < 2
      → s.query v q st ≡ some (a, st')
      → (a.error ≢ none) × (a.response ≡ none)
