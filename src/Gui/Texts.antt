-- ===== src/Gui/Texts.antt =====
-- kernel/gui.c: the texts of the terminal, as bytes without the final zero.
use dragoon_kernel.Prelude.{ℕ, List, [], ◌∷◌}
use dragoon_kernel.Kernel.{TaskState, dead, ready, running, blocked}

-- `help`.
abbrev pub cmd_help : List ℕ
cmd_help = 104 ∷ 101 ∷ 108 ∷ 112 ∷ []

-- `clear`.
abbrev pub cmd_clear : List ℕ
cmd_clear = 99 ∷ 108 ∷ 101 ∷ 97 ∷ 114 ∷ []

-- `ps`.
abbrev pub cmd_ps : List ℕ
cmd_ps = 112 ∷ 115 ∷ []

-- `mem`.
abbrev pub cmd_mem : List ℕ
cmd_mem = 109 ∷ 101 ∷ 109 ∷ []

-- `Commands: help, clear, ps, mem`.
abbrev pub help_line : List ℕ
help_line =
    67 ∷ 111 ∷ 109 ∷ 109 ∷ 97 ∷ 110 ∷ 100 ∷ 115 ∷ 58 ∷ 32 ∷ 104 ∷ 101 ∷ 108 ∷ 112 ∷ 44 ∷ 32 ∷ 99
    ∷ 108 ∷ 101 ∷ 97 ∷ 114 ∷ 44 ∷ 32 ∷ 112 ∷ 115 ∷ 44 ∷ 32 ∷ 109 ∷ 101 ∷ 109 ∷ []

-- `Tasks:`.
abbrev pub tasks_line : List ℕ
tasks_line = 84 ∷ 97 ∷ 115 ∷ 107 ∷ 115 ∷ 58 ∷ []

-- `Free: `.
abbrev pub free_prefix : List ℕ
free_prefix = 70 ∷ 114 ∷ 101 ∷ 101 ∷ 58 ∷ 32 ∷ []

-- ` pages (4KB each)`.
abbrev pub pages_suffix : List ℕ
pages_suffix =
    32 ∷ 112 ∷ 97 ∷ 103 ∷ 101 ∷ 115 ∷ 32 ∷ 40 ∷ 52 ∷ 75 ∷ 66 ∷ 32 ∷ 101 ∷ 97 ∷ 99 ∷ 104 ∷ 41 ∷ []

-- `Unknown: `.
abbrev pub unknown_prefix : List ℕ
unknown_prefix = 85 ∷ 110 ∷ 107 ∷ 110 ∷ 111 ∷ 119 ∷ 110 ∷ 58 ∷ 32 ∷ []

-- `Dragoon Terminal v0.2`.
abbrev pub banner : List ℕ
banner =
    68 ∷ 114 ∷ 97 ∷ 103 ∷ 111 ∷ 111 ∷ 110 ∷ 32 ∷ 84 ∷ 101 ∷ 114 ∷ 109 ∷ 105 ∷ 110 ∷ 97 ∷ 108 ∷ 32
    ∷ 118 ∷ 48 ∷ 46 ∷ 50 ∷ []

-- `Type 'help' for commands.`.
abbrev pub hint : List ℕ
hint =
    84 ∷ 121 ∷ 112 ∷ 101 ∷ 32 ∷ 39 ∷ 104 ∷ 101 ∷ 108 ∷ 112 ∷ 39 ∷ 32 ∷ 102 ∷ 111 ∷ 114 ∷ 32 ∷ 99
    ∷ 111 ∷ 109 ∷ 109 ∷ 97 ∷ 110 ∷ 100 ∷ 115 ∷ 46 ∷ []

abbrev pub state_name : TaskState → List ℕ
state_name dead = 100 ∷ 101 ∷ 97 ∷ 100 ∷ []
state_name ready = 114 ∷ 101 ∷ 97 ∷ 100 ∷ 121 ∷ []
state_name running = 114 ∷ 117 ∷ 110 ∷ 110 ∷ 105 ∷ 110 ∷ 103 ∷ []
state_name blocked = 98 ∷ 108 ∷ 111 ∷ 99 ∷ 107 ∷ 101 ∷ 100 ∷ []
