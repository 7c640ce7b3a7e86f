-- ===== src/Fd/Device.antt =====
-- user/lib/fd.c: what is done with an open descriptor, on the devices of devtab.
use run_mos_on_risc_v.Prelude.{
  ℕ, zero, suc, ◌+◌, ◌-◌, ◌*◌, ◌%◌, Bool, true, false, Option, none, some, List, [], ◌∷◌, ltb, ◌==◌,
  if◌then◌else◌,
}
use run_mos_on_risc_v.Prelude.Proc.{
  Run, ok, err, left, panic, wild, Proc, pure, fail, get, ignored, ◌>>=◌, ◌>>◌, inval,
}
use run_mos_on_risc_v.Mmu.{word_mod, by2pg}
use run_mos_on_risc_v.Fd.{
  Space, maxfd, index2fd, fd2data, has_table, entry_of, fd_lookup, descriptor, set_offset, unmap_va,
  fd_close, map_va,
}

-- struct Dev, and the bytes that a call moves are not looked at: a device gets the address of the
-- descriptor, the length and the offset.
pub record Dev : Type 0 where
  pub id : ℕ
  pub read : ℕ → ℕ → ℕ → ℕ → Proc Space ℕ
  pub write : ℕ → ℕ → ℕ → ℕ → Proc Space ℕ
  pub close : ℕ → Proc Space ℕ

-- O_RDONLY, O_WRONLY and O_ACCMODE
abbrev pub o_rdonly : ℕ
o_rdonly = 0

abbrev pub o_wronly : ℕ
o_wronly = 1

abbrev pub access : ℕ → ℕ
access omode = omode % 4

-- What follows dev_close in close: the descriptor is unmapped in any case.
unfoldable pub closed : ℕ → Run Space ℕ → Run Space ℕ
unfolding fd_close
closed fd (ok r s) = (do fd_close fd; pure r) s
closed fd (err e s) = (do fd_close fd; fail e) s
closed fd (left s) = left s
closed fd panic = panic
closed fd wild = wild

-- dev_lookup, from an entry of devtab on.
unfoldable pub find_dev : List Dev → ℕ → Option Dev
find_dev [] dev_id = none
find_dev (d ∷ ds) dev_id = if d.id == dev_id then some d else find_dev ds dev_id

-- fd->fd_offset += r, if r > 0
unfoldable pub advance : ℕ → ℕ → Proc Space (Unit {0})
unfolding set_offset
advance fd r = do
  d ← get (descriptor fd)
  if r == 0 then pure tt else set_offset fd ((d.offset + r) % word_mod)

-- A round of the loop of dup, on a page whose entry is valid or not.
unfoldable pub share_page : Bool → ℕ → ℕ → Proc Space (Unit {0})
unfolding map_va
share_page true src dst = map_va src dst
share_page false src dst = pure tt

-- The loop of dup over n pages from i.
unfoldable pub share_pages : ℕ → ℕ → ℕ → ℕ → Proc Space (Unit {0})
unfolding share_page
share_pages zero i ova nva = pure tt
share_pages (suc n) i ova nva = do
  pte ← get (entry_of (ova + i * by2pg))
  share_page pte.valid (ova + i * by2pg) (nva + i * by2pg)
  share_pages n (i + 1) ova nva

-- The loop of dup behind the label err, over n pages from i.
unfoldable pub unmap_pages : ℕ → ℕ → ℕ → Proc Space (Unit {0})
unfolding unmap_va
unmap_pages zero i nva = pure tt
unmap_pages (suc n) i nva = do
  (λ s. ignored (unmap_va (nva + i * by2pg) s))
  unmap_pages n (i + 1) nva

-- What dup does behind the label err.
unfoldable pub undo : ℕ → Proc Space (Unit {0})
unfolding unmap_va unmap_pages fd2data
undo newfd = do (λ s. ignored (unmap_va newfd s)); unmap_pages 1024 0 (fd2data newfd)

-- dup behind close: an error undoes what was mapped.
unfoldable pub or_undo : ℕ → ℕ → Run Space (Unit {0}) → Run Space ℕ
or_undo newfdnum newfd (ok u s) = ok newfdnum s
or_undo newfdnum newfd (err e s) = (do undo newfd; fail e) s
or_undo newfdnum newfd (left s) = left s
or_undo newfdnum newfd panic = panic
or_undo newfdnum newfd wild = wild

unfoldable pub share_data : ℕ → ℕ → Proc Space (Unit {0})
unfolding share_pages
share_data ova nva = do
  table ← get (has_table ova)
  if table then share_pages 1024 0 ova nva else pure tt

unfoldable pub found_dev : Option Dev → Proc Space Dev
found_dev (some d) = pure d
found_dev none = fail inval

unfoldable pub seek : ℕ → ℕ → Proc Space (Unit {0})
unfolding fd_lookup set_offset
seek fdnum offset = do fd ← fd_lookup fdnum; set_offset fd offset

module _ (devtab : List Dev) where
  unfoldable pub dev_lookup : ℕ → Proc Space Dev
  unfolding find_dev found_dev
  dev_lookup dev_id = found_dev (find_dev devtab dev_id)

  unfoldable pub close : ℕ → Proc Space ℕ
  unfolding fd_lookup dev_lookup closed
  close fdnum = do
    fd ← fd_lookup fdnum
    d ← get (descriptor fd)
    dev ← dev_lookup d.dev_id
    (λ s. closed fd (dev.close fd s))

  -- The loop of close_all over n numbers from i.
  unfoldable pub close_from : ℕ → ℕ → Proc Space (Unit {0})
  unfolding close
  close_from zero i = pure tt
  close_from (suc n) i = do (λ s. ignored (close i s)); close_from n (i + 1)

  unfoldable pub close_all : Proc Space (Unit {0})
  unfolding close_from
  close_all = close_from maxfd 0

  unfoldable pub read : ℕ → ℕ → ℕ → Proc Space ℕ
  unfolding fd_lookup dev_lookup advance
  read fdnum buf n = do
    fd ← fd_lookup fdnum
    d ← get (descriptor fd)
    dev ← dev_lookup d.dev_id
    if access d.omode == o_wronly
        then fail inval
        else (do r ← dev.read fd buf n d.offset; advance fd r; pure r)

  unfoldable pub write : ℕ → ℕ → ℕ → Proc Space ℕ
  unfolding fd_lookup dev_lookup advance
  write fdnum buf n = do
    fd ← fd_lookup fdnum
    d ← get (descriptor fd)
    dev ← dev_lookup d.dev_id
    if access d.omode == o_rdonly
        then fail inval
        else (do r ← dev.write fd buf n d.offset; advance fd r; pure r)

  -- The loop of readn on fuel, with tot bytes read; `stop` says that the fuel was not enough.
  unfoldable pub read_more : ℕ → ℕ → ℕ → ℕ → ℕ → Proc Space ℕ
  unfolding read
  read_more zero fdnum buf n tot = if ltb tot n then (λ s. panic) else pure tot
  read_more (suc k) fdnum buf n tot =
      let again = λ (m : ℕ). read_more k fdnum buf n (tot + m) in
      if ltb tot n
      then (do m ← read fdnum (buf + tot) (n - tot); if m == 0 then pure tot else again m)
      else pure tot

  unfoldable pub readn : ℕ → ℕ → ℕ → Proc Space ℕ
  unfolding read_more
  readn fdnum buf n = read_more n fdnum buf n 0

  unfoldable pub dup : ℕ → ℕ → Proc Space ℕ
  unfolding fd_lookup close or_undo map_va share_data fd2data
  dup oldfdnum newfdnum = do
    oldfd ← fd_lookup oldfdnum
    (λ s. ignored (close newfdnum s))
    let newfd = index2fd newfdnum
    (λ s.
        or_undo newfdnum newfd
          ((do map_va oldfd newfd; share_data (fd2data oldfd) (fd2data newfd)) s))
