-- ===== src/Diskcache.antt =====
-- diskcache/key.go: the key of a cache entry and its place on the disk. The hash is SHA-256, a
-- parameter; the path separator is the slash.
pub mod Keys
pub mod Entries
pub mod Places
pub mod Gauges
pub mod Sweep
use debugsymd.Base.{◌++◌, Bytes, codes, take, drop}
use debugsymd.Symstore.DebugId.{hex_encode}

-- what is written to the hash, in order
unfoldable pub key_text : Bytes → Bytes → Bytes → Bytes
key_text role debug_id inner = debug_id ++ (codes ":" ++ (role ++ (codes ":" ++ inner)))

module _ (sum256 : Bytes → Bytes) where
  unfoldable pub key : Bytes → Bytes → Bytes → Bytes
  unfolding key_text
  key role debug_id inner = hex_encode (sum256 (key_text role debug_id inner))

  unfoldable pub path : Bytes → Bytes → Bytes → Bytes → Bytes
  unfolding key
  path root role debug_id inner =
      let sum = key role debug_id inner in
      root
      ++ (codes "/"
          ++ (role
              ++ (codes "/"
                  ++ (take 2 sum ++ (codes "/" ++ (take 2 (drop 2 sum) ++ (codes "/" ++ sum)))))))
