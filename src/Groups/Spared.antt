-- ===== src/Groups/Spared.antt =====
-- What a write of a group leaves as it is.
use open_dax.Base.{
  ℕ, zero, suc, ◌+◌, ◌≡◌, ◌≢◌, refl, Bool, true, false, if◌then◌else◌, List, [], ◌∷◌, Option, none,
  some, get_elem?, Error, err, ◌>>=◌, ◌>>◌, or_crash, run,
}
use open_dax.Base.Int.{pos, negsuc, signed}
use open_dax.Memory.{Block, slice}
use open_dax.Event.{Floats}
use open_dax.Server.{Handle, Group, Module, Server, M}
use open_dax.Groups.{is_used}
use open_dax.Groups.Members.{members_of, with_group, write_members, group_write}
use open_dax.Store.{tag_write}
use open_dax.Store.Spared.{SameAt, SameAt->>, tag_write-SameAt}

-- No member of the group is of the tag at `j`.
abbrev pub Spares : ℕ → Option Group → Type 0
Spares j none = Unit {0}
Spares j (some g) =
    (k : ℕ) (h : Handle) → get_elem? (members_of g.members) k ≡ some h → h.index ≢ pos j

module _ (j : ℕ) where
  module _ (floats : Floats) where
    write_members-SameAt :
        (k : ℕ) (hs : List Handle) (buff : Block) (offset : ℕ) (s : Server)
        → ((n : ℕ) (h : Handle) → get_elem? hs n ≡ some h → h.index ≢ pos j)
        → SameAt j s (write_members floats k hs buff offset s)
    unfolding write_members
    write_members-SameAt zero hs buff offset s spared = (refl, refl, refl)
    write_members-SameAt (suc k) [] buff offset s spared = tt
    write_members-SameAt (suc k) (h ∷ hs) buff offset s spared =
        go (slice offset h.size buff) (λ s'.
          write_members-SameAt k hs buff (offset + h.size) s' (λ n h' at. spared (suc n) h' at))
      where
        rest : M ℕ
        rest = write_members floats k hs buff (offset + h.size)

        write : Block → M ℕ
        write bytes = tag_write floats (negsuc 0) h.index (signed 32 h.byte) bytes >> rest

        go :
            (o : Option Block)
            → ((s' : Server) → SameAt j s' (rest s'))
            → SameAt j s ((run (or_crash o) >>= write) s)
        go none ih = tt
        go (some bytes) ih =
            SameAt->> j s (tag_write floats (negsuc 0) h.index (signed 32 h.byte) bytes) rest
              (tag_write-SameAt j floats (negsuc 0) h.index (signed 32 h.byte) bytes s
                (spared 0 h refl))
              ih

    -- A write of a group, whether it succeeds or is refused on the way, leaves each tag that is of no
    -- member of the group as it is, and the index of names and the datatypes too.
    pub group_write-SameAt :
        (m : Module) (n : ℕ) (buff : Block) (s : Server)
        → Spares j (get_elem? m.tag_groups n)
        → SameAt j s (group_write floats m n buff s)
    unfolding group_write with_group
    group_write-SameAt m n buff s spared = go (get_elem? m.tag_groups n) spared
      where
        go :
            (o : Option Group)
            → Spares j o
            → SameAt j s
                (with_group o (λ g. write_members floats g.count (members_of g.members) buff 0) s)
        go none h = tt
        go (some g) h = used (is_used g)
          where
            used :
                (b : Bool)
                → SameAt j s (
                    if b
                    then write_members floats g.count (members_of g.members) buff 0 s
                    else err Error.notfound s)
            used true = write_members-SameAt g.count (members_of g.members) buff 0 s h
            used false = (refl, refl, refl)
