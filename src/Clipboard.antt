-- ===== src/Clipboard.antt =====
-- src/Linux/ClipboardLinux.cpp: a clipboard of the process alone.
use system_abstractions.Base.{Bool, true, false, [], ◌≡◌, refl, if◌then◌else◌, Text}

-- `fakeClipboard` and `fakeClipboardFull`
pub record Clipboard : Type 0 where
  pub contents : Text
  pub full : Bool

unfoldable pub new : Clipboard
new = record { contents = []; full = false }

unfoldable pub copy : Clipboard → Text → Clipboard
copy c s = record { contents = s; full = true }

unfoldable pub has_string : Clipboard → Bool
has_string c = c.full

unfoldable pub paste_string : Clipboard → Text
paste_string c = if c.full then c.contents else []

pub paste_string-copy : (c : Clipboard) (s : Text) → paste_string (copy c s) ≡ s
unfolding paste_string copy
paste_string-copy c s = refl

pub has_string-copy : (c : Clipboard) (s : Text) → has_string (copy c s) ≡ true
unfolding has_string copy
has_string-copy c s = refl
