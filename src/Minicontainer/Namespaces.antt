-- ===== src/Minicontainer/Namespaces.antt =====
-- namespace_id of minicontainer/src/util.cpp, print_namespaces of minicontainer/src/container.cpp, and
-- what main of minicontainer/src/main.cpp prints before it runs a container. What readlink answers is a
-- parameter, by the path: the link's target, or none for an error.
use linux_internals.Prelude.{
  ℕ, zero, suc, ◌+◌, ◌-◌, Option, none, some, List, [], ◌∷◌, ◌++◌, to_string, length, take,
  replicate, ℤ, pos, negsuc, Text, codes,
}
use linux_internals.Minicontainer.Config.{ContainerConfig}
use linux_internals.Minicontainer.Size.{human_bytes}
use mathlib.Core.Option

abbrev pub Links : Type 0
Links = Text → Option Text

-- readlink cuts the target off at the size of the buffer, 127 bytes; a target has no zero byte.
unfoldable pub namespace_id : Links → Text → Text → Option Text
namespace_id links pid kind =
    Option.map (take 127) (links (codes "/proc/" ++ (pid ++ (codes "/ns/" ++ kind))))

abbrev pub namespace_kinds : List Text
namespace_kinds =
    codes "pid"
    ∷ codes "mnt"
    ∷ codes "net"
    ∷ codes "uts"
    ∷ codes "ipc"
    ∷ codes "cgroup"
    ∷ codes "user"
    ∷ []

-- "%-7s"
unfoldable pub pad_right : ℕ → Text → Text
pad_right width s = s ++ replicate (width - length s) 32

unfoldable pub id_text : Option Text → Text
id_text none = codes "(unavailable)"
id_text (some id) = id

unfoldable pub namespace_lines : Links → Text → List Text → Text
namespace_lines links pid [] = []
namespace_lines links pid (kind ∷ more) =
    codes "    "
    ++ (pad_right 7 kind
        ++ (codes " "
            ++ (id_text (namespace_id links pid kind)
                ++ (codes "\n" ++ namespace_lines links pid more))))

unfoldable pub print_namespaces : Links → Text → Text → Text
print_namespaces links pid label =
    codes "  " ++ (label ++ (codes "\n" ++ namespace_lines links pid namespace_kinds))

-- A line that is printed only for a limit above 0.
unfoldable pub limit_line : Text → (ℤ → Text) → ℤ → Text
limit_line name show (negsuc n) = []
limit_line name show (pos zero) = []
limit_line name show (pos (suc n)) = name ++ (show (pos (suc n)) ++ codes "\n")

unfoldable pub count_text : ℤ → Text
count_text (pos n) = to_string n
count_text (negsuc n) = 45 ∷ to_string (n + 1)

pub start_text : Links → ContainerConfig → Text
start_text links cfg =
    codes "minicontainer\n"
    ++ (print_namespaces links (codes "self") (codes "host namespaces")
        ++ (codes "\n"
            ++ (limit_line (codes "  memory limit            ") human_bytes cfg.memory_limit
                ++ limit_line (codes "  pids limit              ") count_text cfg.pids_limit)))
