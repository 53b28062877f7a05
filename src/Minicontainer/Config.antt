-- ===== src/Minicontainer/Config.antt =====
-- struct ContainerConfig of minicontainer/include/mc/container.hpp.
use linux_internals.Prelude.{Bool, true, List, [], ℤ, negsuc, Text, codes}

pub record ContainerConfig : Type 0 where
  pub rootfs : Text
  pub hostname : Text
  pub memory_limit : ℤ
  pub pids_limit : ℤ
  pub isolate_network : Bool
  pub command : List Text

-- The field initialisers.
abbrev pub default_config : ContainerConfig
default_config = record {
  rootfs = [];
  hostname = codes "container";
  memory_limit = negsuc 0;
  pids_limit = negsuc 0;
  isolate_network = true;
  command = [];
}
