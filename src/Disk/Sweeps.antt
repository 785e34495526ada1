-- ===== src/Disk/Sweeps.antt =====
-- distributed-fs/metadata_disk.go and distributed-fs/replication_disk.go: the operations that put
-- into the bucket that they visit with `ForEach`.
use package.go_infra_lab.Disk.Mirrors.{Mirrors}
