-- ===== src/Relay/Server/Terminal.antt =====
-- What the browser can do to a terminal.
use pandion.Prelude.{
  Bool, true, false, if◌then◌else◌, ◌∙◌, String, List, [], ◌∷◌, ◌++◌, ◌≡◌, refl, sym, arith,
}
use mathlib.Core.List.{append_assoc, append-nil}
use pandion.Relay.Server.{Frame, binary, resize, other_text, Pty, pump_input}

-- The keystrokes among the frames.
abbrev pub keystrokes : List Frame → List String
keystrokes [] = []
keystrokes (binary d ∷ fs) = d ∷ keystrokes fs
keystrokes (resize rows cols ∷ fs) = keystrokes fs
keystrokes (other_text ∷ fs) = keystrokes fs

read_only_written : (fs : List Frame) (t : Pty) → (pump_input true fs t).written ≡ t.written
unfolding pump_input
read_only_written [] t = refl
read_only_written (resize rows cols ∷ fs) t =
    read_only_written fs (record t { sizes = t.sizes ++ (rows, cols) ∷ [] })
read_only_written (other_text ∷ fs) t = read_only_written fs t
read_only_written (binary d ∷ fs) t = read_only_written fs t

all_written :
    (fs : List Frame) (t : Pty)
    → t.writes ≡ []
    → (pump_input false fs t).written ≡ t.written ++ keystrokes fs
unfolding pump_input
all_written [] t h = sym (append-nil t.written)
all_written (resize rows cols ∷ fs) t h =
    all_written fs (record t { sizes = t.sizes ++ (rows, cols) ∷ [] }) h
all_written (other_text ∷ fs) t h = all_written fs t h
all_written (binary d ∷ fs) t h = ground (
  arith,
  h,
  all_written fs (record t { writes = []; written = t.written ++ d ∷ [] }) refl,
  append_assoc t.written (d ∷ []) (keystrokes fs),
)

-- Where the terminal takes each write: through a read-only session no keystroke reaches it,
-- whatever the browser sends, and through any other all of them do, in their order.
pub pump_input-written :
    (read_only : Bool) (fs : List Frame) (t : Pty)
    → t.writes ≡ []
    → (pump_input read_only fs t).written ≡ t.written ++ (if read_only then [] else keystrokes fs)
pump_input-written true fs t h = read_only_written fs t ∙ sym (append-nil t.written)
pump_input-written false fs t h = all_written fs t h
