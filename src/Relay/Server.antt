-- ===== src/Relay/Server.antt =====
-- internal/relay/server.go: the pages and the terminals that the relay serves. The source address
-- of a request comes parsed (net.SplitHostPort), its token comes without the route's prefix.
pub mod Throttle
pub mod Terminal
use pandion.Prelude.{
  ℕ, ◌+◌, String, Bool, true, false, ◌&&◌, not, List, [], ◌∷◌, ◌++◌, Option, none, some, leb,
  str_eq, if◌then◌else◌,
}
use pandion.Prelude.Dict.{Dict, lookup, insert}
use pandion.Relay.{Session, Store, get}

abbrev pub bad_token_per_min : ℕ
bad_token_per_min = 20

pub record Limiter : Type 0 where
  pub hits : Dict ℕ
  pub max : ℕ

abbrev pub new_limiter : ℕ → Limiter
new_limiter max = record { hits = []; max = max }

-- The tick of each minute.
abbrev pub next_window : Limiter → Limiter
next_window l = record l { hits = [] }

-- l.hits[ip], zero where it is absent
abbrev pub hits_of : Limiter → String → ℕ
hits_of l ip = elim (lookup l.hits ip) [ none ↦ 0 | some n ↦ n ]

unfoldable pub allow : String → Limiter → Bool × Limiter
allow ip l =
    let l' = record l { hits = insert l.hits ip (hits_of l ip + 1) } in
    (leb (hits_of l' ip) l.max, l')

pub data Response : Type 0 where
  -- 404 and 429
  not_found too_many_requests : Response
  -- the terminal's page, with its node and token
  page : String → String → Response
  -- no WebSocket came about
  dropped : Response
  -- the WebSocket is closed at once
  target_unreachable : Response
  -- the WebSocket is bridged until a deadline; read-only or not; with the session that is recorded
  bridged : ℕ → Bool → Option String → Response

unfoldable pub reject : String → Limiter → Response × Limiter
unfolding allow
reject ip l =
    let (under, l') = allow ip l in
    (if under then Response.not_found else Response.too_many_requests, l')

pub record Server : Type 0 where
  pub store : Store
  pub lim : Limiter
  pub record_dir : String

module _ (hash : String → String) where
  -- After the lookup of the token.
  unfoldable pub show_page : String → String → Option Session → Server → Response × Server
  unfolding reject
  show_page ip token none srv = let (r, l) = reject ip srv.lim in (r, record srv { lim = l })
  show_page ip token (some s) srv = (Response.page s.node token, srv)

  unfoldable pub handle_page : String → String → ℕ → Server → Response × Server
  unfolding show_page
  handle_page ip token now srv =
      let (s, st) = get hash token now srv.store in show_page ip token s (record srv { store = st })

  -- Whether the recording's file could be opened is the environment's answer.
  abbrev pub recording : Server → Session → Bool → Option String
  recording srv s opened =
      if s.record_session && not (str_eq srv.record_dir "") && opened then some s.id else none

  unfoldable pub bridge : String → Option Session → Bool → Bool → Bool → Server → Response × Server
  unfolding reject
  bridge ip none accepted dialled opened srv =
      let (r, l) = reject ip srv.lim in (r, record srv { lim = l })
  bridge ip (some s) accepted dialled opened srv = (
    if not accepted
        then Response.dropped
        else if not dialled
        then Response.target_unreachable
        else Response.bridged s.expiry s.read_only (recording srv s opened),
    srv,
  )

  -- With whether the WebSocket is accepted, the target is reached and the recording is opened.
  unfoldable pub handle_ws : String → String → ℕ → Bool → Bool → Bool → Server → Response × Server
  unfolding bridge
  handle_ws ip token now accepted dialled opened srv =
      let (s, st) = get hash token now srv.store in
      bridge ip s accepted dialled opened (record srv { store = st })

-- A frame from the browser: keystrokes, or a text that is a resize or something else.
pub data Frame : Type 0 where
  binary : String → Frame
  resize : ℕ → ℕ → Frame
  other_text : Frame

-- What has reached the terminal, and how its next writes end.
pub record Pty : Type 0 where
  pub written : List String
  pub sizes : List (ℕ × ℕ)
  pub writes : List Bool

abbrev pub next_write : List Bool → Bool
next_write [] = true
next_write (b ∷ bs) = b

abbrev pub later_writes : List Bool → List Bool
later_writes [] = []
later_writes (b ∷ bs) = bs

-- The loop of pump over the frames that the browser sends before its end.
unfoldable pub pump_input : Bool → List Frame → Pty → Pty
pump_input read_only [] t = t
pump_input read_only (resize rows cols ∷ fs) t =
    pump_input read_only fs (record t { sizes = t.sizes ++ (rows, cols) ∷ [] })
pump_input read_only (other_text ∷ fs) t = pump_input read_only fs t
pump_input true (binary data' ∷ fs) t = pump_input true fs t
pump_input false (binary data' ∷ fs) t =
    let failed = record t { writes = later_writes t.writes } in
    let rest = pump_input false fs (record failed { written = t.written ++ data' ∷ [] }) in
    if next_write t.writes then rest else failed
