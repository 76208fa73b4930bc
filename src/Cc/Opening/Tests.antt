-- ===== src/Cc/Opening/Tests.antt =====
-- A device that is no GPU, and the theorem at it.
use pcilibs_rs.Prelude.{[]}
use pcilibs_rs.Text.{codes}
use pcilibs_rs.Sysfs.{default}
use pcilibs_rs.Catalog.Tests.{bundled}
use pcilibs_rs.PciDev.Tests.{sleeping, idle, bar0_length, unclaimed}
use pcilibs_rs.Cc.Opening.{open_gpu}
use pcilibs_rs.Cc.Opening.Claims.{IsTaken, gpu_path, open_gpu-IsTaken}

open_gpu-IsTaken_example :
    let out = open_gpu sleeping idle bar0_length bundled default (codes "65:00.0") unclaimed in
    IsTaken gpu_path [] out.0 (out.1).held
open_gpu-IsTaken_example =
    open_gpu-IsTaken sleeping idle bar0_length bundled default (codes "65:00.0") unclaimed
