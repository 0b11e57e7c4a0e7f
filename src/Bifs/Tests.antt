-- ===== src/Bifs/Tests.antt =====
-- bakedinfs.c at concrete directories and files.
use riscv_hobby_os.Base.{
  replicate, Option, none, ℤ, pos, ℕ, ◌≡◌, refl, some, List, [], ◌∷◌, length, arith,
}
use riscv_hobby_os.Bifs.{
  Bifs, text, root, no_dir, no_bifs_file, bifs_open, bifs_openfile, next_slash, last_slash,
  walk_path, bifs_opendir, bifs_opendirpath,
}
use riscv_hobby_os.Bifs.{bifs_allocate_dir}
use riscv_hobby_os.Bifs.Init.{bifs_init, leaky_test_name, file_name}
use riscv_hobby_os.Str.{strncmp}
use riscv_hobby_os.Bifs.Dir.{Dirent, no_dirent}
use riscv_hobby_os.Bifs.Words.{AreWords, path_of}
use riscv_hobby_os.Bifs.Resolve.{resolve}
use riscv_hobby_os.Bifs.Names.{descend, bifs_opendirpath-descend}

abbrev home_name : List ℕ
home_name = b'h' ∷ b'o' ∷ b'm' ∷ b'e' ∷ []

abbrev user_name : List ℕ
user_name = b'u' ∷ b's' ∷ b'e' ∷ b'r' ∷ []

abbrev readme_name : List ℕ
readme_name = b'r' ∷ b'e' ∷ b'a' ∷ b'd' ∷ []

abbrev pub hello : List ℕ
hello = b'h' ∷ b'e' ∷ b'l' ∷ b'l' ∷ b'o' ∷ []

-- The root, `/home`, `/home/user` and a file `/home/user/read`.
abbrev pub some_bifs : Bifs
some_bifs = record {
  dirs =
      no_dir
      ∷ record no_dir { flags = 1; name = home_name; parent = some 0 }
      ∷ record no_dir { flags = 1; name = user_name; parent = some 1 }
      ∷ [];
  files =
      record no_bifs_file { flags = 1; name = readme_name; parent = some 2; contents = text hello }
      ∷ [];
}

-- `/home/user/read`
abbrev pub readme_path : List ℕ
readme_path = path_of (home_name ∷ user_name ∷ readme_name ∷ [])

pub readme_opens : bifs_open some_bifs readme_path ≡ (pos 1, some 0)
unfolding bifs_open bifs_openfile bifs_opendirpath bifs_opendir next_slash last_slash walk_path
    strncmp
readme_opens = refl

-- The path names the directory at index 2.
resolve_test :
    resolve some_bifs (path_of (home_name ∷ user_name ∷ [])) 0 root (home_name ∷ user_name ∷ [])
    ≡ some 2
unfolding resolve bifs_opendir strncmp
resolve_test = refl

home_user-AreWords : AreWords (home_name ∷ user_name ∷ [])
home_user-AreWords = ground arith

bifs_opendirpath-descend_example :
    bifs_opendirpath some_bifs
      (path_of (home_name ∷ user_name ∷ []))
      (length (path_of (home_name ∷ user_name ∷ [])))
    ≡ descend some_bifs root (home_name ∷ user_name ∷ [])
bifs_opendirpath-descend_example =
    bifs_opendirpath-descend some_bifs home_name (user_name ∷ []) home_user-AreWords
      (omega arith, (omega arith, tt))

abbrev two_dirents : List Dirent
two_dirents = replicate 2 no_dirent

-- The tables of the kernel, with an old directory and an old file in them.
abbrev old_bifs : Bifs
old_bifs = record {
  dirs = record no_dir { flags = 1; name = user_name } ∷ replicate 7 no_dir;
  files = record no_bifs_file { flags = 1; name = user_name } ∷ replicate 31 no_bifs_file;
}

-- What `bifs_open` gives in the tree that `bifs_init` makes.
abbrev open_initial : Bifs → List ℕ → ℤ × Option ℕ
open_initial b path = elim (bifs_init b) [ none ↦ (pos 0, none) | some tree ↦ bifs_open tree path ]

init_opens : open_initial old_bifs (path_of (home_name ∷ leaky_test_name ∷ [])) ≡ (pos 5, some 6)
unfolding bifs_init bifs_allocate_dir bifs_open bifs_openfile bifs_opendirpath bifs_opendir
    next_slash last_slash walk_path strncmp
init_opens = refl

init_opens_root : open_initial old_bifs (path_of (file_name ∷ [])) ≡ (pos 5, some 1)
unfolding bifs_init bifs_allocate_dir bifs_open bifs_openfile bifs_opendirpath bifs_opendir
    next_slash last_slash walk_path strncmp
init_opens_root = refl

-- Three directories are too few.
init_fails : bifs_init (record old_bifs { dirs = replicate 3 no_dir }) ≡ none
unfolding bifs_init bifs_allocate_dir
init_fails = refl
