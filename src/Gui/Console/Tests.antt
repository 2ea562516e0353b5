-- ===== src/Gui/Console/Tests.antt =====
-- Runs of the terminal.
use dragoon_kernel.Prelude.{◌≡◌, refl, [], ◌∷◌}
use dragoon_kernel.Gui.Console.{unknown_line, clip}

-- Of "Unknown: " only four letters are shown before the command "ls".
unknown_runs : unknown_line (108 ∷ 115 ∷ []) ≡ 85 ∷ 110 ∷ 107 ∷ 110 ∷ 108 ∷ 115 ∷ []
unfolding unknown_line clip
unknown_runs = refl
