-- ===== src/Disk/Mounts.antt =====
-- internal/collector/disk.go: `parseMounts` with its escapes, `dedupeMounts`, and the types left out.
use pi_monitor.Prelude.{
  ℕ, Bool, false, not, ◌&&◌, ◌||◌, List, [], ◌∷◌, ◌++◌, Option, none, some, ◌==◌, if◌then◌else◌,
}
use pi_monitor.Prelude.Bytes.{Bytes, codes, str_eq}
use pi_monitor.Prelude.Text.{fields, scan_lines}
use pi_monitor.Prelude.Maps.{lookup, insert}

pub record MountEntry : Type 0 where
  pub device : Bytes
  pub mountpoint : Bytes
  pub fstype : Bytes

-- `mountFieldEscapes`, at three digits.
unfoldable pub mount_field_escape : ℕ → ℕ → ℕ → Option ℕ
mount_field_escape d e f =
    if d == b'0' && e == b'4' && f == b'0'
    then some b' '
    else if d == b'0' && e == b'1' && f == b'1'
    then some 9
    else if d == b'0' && e == b'1' && f == b'2'
    then some 10
    else if d == b'1' && e == b'3' && f == b'4'
    then some 92
    else none

-- The byte that an escape at the head of a text stands for; 92 is the backslash.
unfoldable pub escape_at : ℕ → ℕ → ℕ → ℕ → Option ℕ
unfolding mount_field_escape
escape_at c d e f = if c == 92 then mount_field_escape d e f else none

-- The loop from index `i` on, over what is left of the text.
unfoldable pub unescape_from : Bytes → Bytes
unescape_from [] = []
unescape_from (c ∷ []) = c ∷ []
unescape_from (c ∷ d ∷ []) = c ∷ d ∷ []
unescape_from (c ∷ d ∷ e ∷ []) = c ∷ d ∷ e ∷ []
unescape_from (c ∷ d ∷ e ∷ f ∷ s) = elim (escape_at c d e f) [
  | some x ↦ x ∷ unescape_from s
  | none ↦ c ∷ unescape_from (d ∷ e ∷ f ∷ s)
]

abbrev pub has_backslash : Bytes → Bool
has_backslash [] = false
has_backslash (c ∷ s) = c == 92 || has_backslash s

unfoldable pub unescape_mount_field : Bytes → Bytes
unescape_mount_field s = if not (has_backslash s) then s else unescape_from s

abbrev pub mount_entry : List Bytes → Option MountEntry
mount_entry (d ∷ m ∷ t ∷ rest) = some (record {
  device = unescape_mount_field d;
  mountpoint = unescape_mount_field m;
  fstype = unescape_mount_field t;
})
mount_entry (d ∷ m ∷ []) = none
mount_entry (d ∷ []) = none
mount_entry [] = none

unfoldable pub mount_entries : List Bytes → List MountEntry
mount_entries [] = []
mount_entries (line ∷ lines) = elim (mount_entry (fields line)) [
  | none ↦ mount_entries lines
  | some e ↦ e ∷ mount_entries lines
]

-- `none` is the scanner's error.
unfoldable pub parse_mounts : Bytes → Option (List MountEntry)
parse_mounts text =
    let (lines, long) = scan_lines text in if long then none else some (mount_entries lines)

-- The loop of `dedupeMounts`: the mount points in order, and the entry of each.
unfoldable pub dedupe_from :
    List MountEntry
    → List Bytes × List (Bytes × MountEntry)
    → List Bytes × List (Bytes × MountEntry)
dedupe_from [] p = p
dedupe_from (e ∷ entries) (order, by_mountpoint) = dedupe_from entries (
  elim (lookup e.mountpoint by_mountpoint) [ none ↦ order ++ e.mountpoint ∷ [] | some old ↦ order ],
  insert e.mountpoint e by_mountpoint,
)

unfoldable pub dedupe_mounts : List MountEntry → List Bytes × List (Bytes × MountEntry)
dedupe_mounts entries = dedupe_from entries ([], [])

-- `defaultExcludedFSTypes`.
abbrev pub excluded_types : List Bytes
excluded_types =
    codes "tmpfs"
    ∷ codes "devtmpfs"
    ∷ codes "proc"
    ∷ codes "sysfs"
    ∷ codes "cgroup"
    ∷ codes "cgroup2"
    ∷ codes "overlay"
    ∷ codes "debugfs"
    ∷ codes "tracefs"
    ∷ codes "devpts"
    ∷ codes "securityfs"
    ∷ codes "pstore"
    ∷ codes "bpf"
    ∷ codes "autofs"
    ∷ codes "mqueue"
    ∷ codes "hugetlbfs"
    ∷ codes "configfs"
    ∷ codes "fusectl"
    ∷ codes "rpc_pipefs"
    ∷ codes "binfmt_misc"
    ∷ codes "nfs"
    ∷ codes "nfs4"
    ∷ codes "cifs"
    ∷ codes "smbfs"
    ∷ codes "smb3"
    ∷ codes "9p"
    ∷ codes "fuse.sshfs"
    ∷ codes "davfs"
    ∷ codes "afs"
    ∷ codes "glusterfs"
    ∷ codes "ceph"
    ∷ codes "curlftpfs"
    ∷ []

unfoldable pub is_member : List Bytes → Bytes → Bool
is_member [] s = false
is_member (x ∷ xs) s = str_eq x s || is_member xs s
