-- ===== src/Subprocess/Linux/Ports.antt =====
-- The ports of a process in `GetProcessList` of src/Linux/SubprocessLinux.cpp.
use system_abstractions.Base.{
  ℕ, zero, suc, ◌*◌, ◌<◌, ◌≡◌, refl, sym, ap, ◌∙◌, inl, inr, Bool, false, ◌||◌, List, [], ◌∷◌,
  Option, none, some, arith, leb, ◌==◌, if◌then◌else◌, length, Text, Bool-cases,
}
use system_abstractions.Subprocess.Linux.{
  Inodes, sscanf, find_port, socket_format, contains, insert, insert_found, insert_ports,
  process_ports, read_link,
}

abbrev pub is_some_port : ℕ → Option ℕ → Bool
is_some_port p none = false
is_some_port p (some q) = p == q

-- What a descriptor links to is a socket, by its inode one that listens on the port.
unfoldable pub is_server_on : ℕ → Inodes → List ℕ → Bool
is_server_on p m (inode ∷ []) = is_some_port p (find_port inode m)
is_server_on p m _ = false

unfoldable pub some_server_on : ℕ → Inodes → List Text → Bool
some_server_on p m [] = false
some_server_on p m (target ∷ targets) =
    is_server_on p m (sscanf socket_format target) || some_server_on p m targets

contains-insert : (p q : ℕ) (ps : List ℕ) → contains p (insert q ps) ≡ (p == q) || contains p ps
unfolding contains
contains-insert p q ps = elim (Bool-cases (contains q ps)) [
  | inr h ↦ ap (λ b. contains p (if b then ps else q ∷ ps)) h
  | inl h ↦ ap (λ b. contains p (if b then ps else q ∷ ps)) h ∙ elim (Bool-cases (p == q)) [
    | inl e ↦
        let d : q ≡ p = ground arith in
        sym (ap (λ x. contains x ps) d) ∙ h ∙ sym (ap (λ b. b || contains p ps) e)
    | inr e ↦ sym (ap (λ b. b || contains p ps) e)
  ]
]

contains-insert_found :
    (p : ℕ) (o : Option ℕ) (ps : List ℕ)
    → contains p (insert_found o ps) ≡ is_some_port p o || contains p ps
unfolding insert_found
contains-insert_found p none ps = refl
contains-insert_found p (some q) ps = contains-insert p q ps

contains-insert_ports :
    (p : ℕ) (m : Inodes) (numbers : List ℕ) (ps : List ℕ)
    → contains p (insert_ports m numbers ps) ≡ is_server_on p m numbers || contains p ps
unfolding insert_ports is_server_on
contains-insert_ports p m [] ps = refl
contains-insert_ports p m (inode ∷ []) ps = contains-insert_found p (find_port inode m) ps
contains-insert_ports p m (a ∷ b ∷ numbers) ps = refl

-- The ports of a process are those that were there and those of the sockets that listen among its
-- descriptors, and no others.
pub process_ports_lem :
    (p : ℕ) (m : Inodes) (targets : List Text) (ps : List ℕ)
    → contains p (process_ports m targets ps) ≡ some_server_on p m targets || contains p ps
unfolding process_ports some_server_on
process_ports_lem p m [] ps = refl
process_ports_lem p m (target ∷ targets) ps =
    process_ports_lem p m targets (insert_ports m (sscanf socket_format target) ps)
    ∙ ap (λ b. some_server_on p m targets || b)
        (contains-insert_ports p m (sscanf socket_format target) ps)
    ∙ or_left_comm (some_server_on p m targets) (is_server_on p m (sscanf socket_format target))
        (contains p ps)
  where
    or_left_comm : (a b c : Bool) → (a || (b || c)) ≡ ((b || a) || c)
    or_left_comm a b c = ground arith

read_link-suc :
    (fuel size c : ℕ) (cs : Text)
    → read_link (suc fuel) (some (c ∷ cs)) size ≡ (
        if leb size (length (c ∷ cs))
        then read_link fuel (some (c ∷ cs)) (size * 2)
        else some (c ∷ cs))
unfolding read_link
read_link-suc fuel size c cs = refl

-- The buffer's size after it was doubled `n` times.
unfoldable pub doubled : ℕ → ℕ → ℕ
doubled zero size = size
doubled (suc n) size = doubled n (size * 2)

-- The loop on `readlink` ends with all of what is linked to, whatever the size of the buffer at its
-- start, with fuel that doubles that size past the text; the text is not empty.
pub read_link_lem :
    (fuel size c : ℕ) (cs : Text)
    → length (c ∷ cs) < doubled fuel size
    → read_link (suc fuel) (some (c ∷ cs)) size ≡ some (c ∷ cs)
unfolding doubled
read_link_lem zero size c cs h =
    let small : leb size (length (c ∷ cs)) ≡ false = ground arith in
    read_link-suc zero size c cs
    ∙ ap (λ b. if b then read_link zero (some (c ∷ cs)) (size * 2) else some (c ∷ cs)) small
read_link_lem (suc fuel) size c cs h =
    read_link-suc (suc fuel) size c cs ∙ elim (Bool-cases (leb size (length (c ∷ cs)))) [
      | inl e ↦
          ap (λ b. if b then read_link (suc fuel) (some (c ∷ cs)) (size * 2) else some (c ∷ cs)) e
          ∙ read_link_lem fuel (size * 2) c cs h
      | inr e ↦
          ap (λ b. if b then read_link (suc fuel) (some (c ∷ cs)) (size * 2) else some (c ∷ cs)) e
    ]
