-- ===== src/Local/Files.antt =====
-- What a disk holds under the keys of a repository, and how a file that is set or dropped changes it.
use rdedup.Disk.{find, Disk, file_at, set_file, drop_file}
use rdedup.Nesting.{FilePath}
use rdedup.Base.{◌≡◌, ◌≢◌, refl, ◌∙◌, sym, ap, Bytes, Option, none, some, ite, if_pos, if_neg}
use rdedup.Aio.{Layout, Key, Key-discrete, key_path, put}
use rdedup.Disk.Laws.{file_at-set, file_at-set_other, file_at-drop, file_at-drop_other}
use rdedup.Local.{with_extension}
use rdedup.Local.Shapes.{IsHex}
use rdedup.Local.Names.{tmp_ext, tmp-ne-key, key_path-injective}

pub put-same :
    (f : Key → Option Bytes) (k j : Key) (v w : Option Bytes) → k ≡ j → v ≡ w → w ≡ put f k v j
put-same f k j v w e h = sym h ∙ sym (if_pos (Key-discrete k j) e v (f j))

pub put-other :
    (f : Key → Option Bytes) (k j : Key) (v w : Option Bytes) → k ≢ j → w ≡ f j → w ≡ put f k v j
put-other f k j v w n h = h ∙ sym (if_neg (Key-discrete k j) n v (f j))

pub put-ext :
    (f g : Key → Option Bytes) (k j : Key) (v : Option Bytes)
    → ((i : Key) → f i ≡ g i)
    → put f k v j ≡ put g k v j
put-ext f g k j v same = ap (λ w. ite (Key-discrete k j) v w) (same j)

module _ (l : Layout) where
  -- What is stored under a key.
  unfoldable pub stored : Disk → Key → Option Bytes
  stored d k = file_at (key_path l k) d

  pub stored-other :
      (k : Key) (d d' : Disk)
      → file_at (key_path l k) d' ≡ file_at (key_path l k) d
      → stored d' k ≡ stored d k
  unfolding stored
  stored-other k d d' e = e

  pub stored-made : (k : Key) (d d' : Disk) → d'.files ≡ d.files → stored d' k ≡ stored d k
  unfolding stored
  stored-made k d d' e = ap (find (key_path l k)) e

  -- The temporary file for a key.
  abbrev pub tmp_of : Bytes → Key → FilePath
  tmp_of rand_ext k = with_extension (tmp_ext rand_ext) (key_path l k)

  module _ (H : IsHex l) where
    pub stored-set :
        (k i : Key) (b : Bytes) (d : Disk)
        → stored (set_file (key_path l k) b d) i ≡ put (stored d) k (some b) i
    unfolding stored
    stored-set k i b d = elim (Key-discrete k i) [
      | yes e ↦
          ap (λ j. stored (set_file (key_path l k) b d) j) (sym e)
          ∙ file_at-set (key_path l k) b d
          ∙ put-same (stored d) k i (some b) (some b) e refl
      | no n ↦ put-other (stored d) k i (some b) _ n (
          file_at-set_other (key_path l k) (key_path l i) b d
            (λ e. n (key_path-injective l H k i e)))
    ]

    pub stored-drop :
        (k i : Key) (d : Disk) → stored (drop_file (key_path l k) d) i ≡ put (stored d) k none i
    unfolding stored
    stored-drop k i d = elim (Key-discrete k i) [
      | yes e ↦
          ap (λ j. stored (drop_file (key_path l k) d) j) (sym e)
          ∙ file_at-drop (key_path l k) d
          ∙ put-same (stored d) k i none none e refl
      | no n ↦ put-other (stored d) k i none _ n (
          file_at-drop_other (key_path l k) (key_path l i) d
            (λ e. n (key_path-injective l H k i e)))
    ]

    -- Temporary files are stored under no key.
    pub stored-set_tmp :
        (rand_ext : Bytes) (k i : Key) (b : Bytes) (d : Disk)
        → stored (set_file (tmp_of rand_ext k) b d) i ≡ stored d i
    unfolding stored
    stored-set_tmp rand_ext k i b d =
        file_at-set_other (tmp_of rand_ext k) (key_path l i) b d (tmp-ne-key l H rand_ext k i)

    pub stored-drop_tmp :
        (rand_ext : Bytes) (k i : Key) (d : Disk)
        → stored (drop_file (tmp_of rand_ext k) d) i ≡ stored d i
    unfolding stored
    stored-drop_tmp rand_ext k i d =
        file_at-drop_other (tmp_of rand_ext k) (key_path l i) d (tmp-ne-key l H rand_ext k i)
