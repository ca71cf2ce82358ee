-- ===== src/Relay/Server/Throttle.antt =====
-- The limiter of the relay's server, over the requests of a minute.
use pandion.Prelude.{
  ℕ, ◌+◌, ◌-◌, ◌≤◌, String, Bool, true, false, ◌&&◌, List, [], ◌∷◌, ◌≡◌, str_eq, one_if,
}
use pandion.Relay.Server.{Limiter, hits_of, Response, Server, handle_page, handle_ws}

-- A request within one minute, for a page or for a terminal with what its environment answers.
pub data Request : Type 0 where
  page_of : String → String → ℕ → Request
  terminal_of : String → String → ℕ → Bool → Bool → Bool → Request

abbrev source_of : Request → String
source_of (page_of ip token now) = ip
source_of (terminal_of ip token now a d o) = ip

module _ (hash : String → String) where
  abbrev handle : Request → Server → Response × Server
  handle (page_of ip token now) srv = handle_page hash ip token now srv
  handle (terminal_of ip token now a d o) srv = handle_ws hash ip token now a d o srv

  -- Whether a response is the 404 of an unknown token, and not the 429.
  abbrev is_not_found : Response → Bool
  is_not_found Response.not_found = true
  is_not_found _ = false

  -- How many of the requests from an address are answered so.
  unfoldable pub not_found_count : String → List Request → Server → ℕ
  not_found_count ip [] srv = 0
  not_found_count ip (q ∷ qs) srv =
      let (r, srv') = handle q srv in
      let rest = not_found_count ip qs srv' in
      rest + one_if (str_eq (source_of q) ip && is_not_found r)

  -- The server after the requests.
  unfoldable pub after : List Request → Server → Server
  after [] srv = srv
  after (q ∷ qs) srv = after qs (handle q srv).1

  -- One request takes of what is left to the address one for each 404, or more.
  abbrev Taken : String → String → Limiter → Response × Limiter → Type 0
  Taken source ip l (r, l') =
      (one_if (str_eq source ip && is_not_found r) + (l'.max - hits_of l' ip)
        ≤ l.max - hits_of l ip)
      × (l'.max ≡ l.max)
