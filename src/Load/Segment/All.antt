-- ===== src/Load/Segment/All.antt =====
-- What the loop over the program headers leaves.
use pinion.Prelude.{
  ℕ, List, ◌∷◌, ◌≡◌, ◌*◌, true, ◌<◌, ◌+◌, arith, ◌%◌, ◌∙◌, ◌^◌, ap, [], suc, if◌then◌else◌, ◌==◌,
  refl,
}
use pinion.Load.Segment.Pages.{Extended, page_bits, reset}
use pinion.Load.Segment.Headers.{
  target, end, Outside, Off, Outside-part, AllLoadable, AllLoaded, AllLoadable-Extended, Headers,
  Headers-Loaded, header, headers, all_pages, dynamic_of,
}
use pinion.Load.Segment.Loaded.{
  Loadable, Loaded, pages_of, map_segment-Loaded, mapped-vacant, mapped-Extended, out_of,
}
use pinion.Load.Segment.{map_segment, header_loop}
use pinion.Load.Elf.{Phdr, phdr}
use pinion.Machine.{Kernel, Ptr, ok}
use pinion.Bytes.{Memory}
use pinion.Load.Copy.{mapped}
use pinion.Paging.{walk}
use pinion.Paging.Tree.{Tree}
use pinion.Alloc.Bump.{Bump, frame, Bump-le}

module _ (base kernel : ℕ) where
  -- The bytes of the file were there before, too.
  AllLoaded-before :
      (k h : Kernel) (m m1 m' : Memory) (p : Phdr) (ps : List Phdr)
      → Loadable base kernel p k
      → Loaded base kernel p m m1
      → AllLoadable base kernel k ps
      → AllLoaded base kernel h m1 m' ps
      → AllLoaded base kernel h m m' ps
  AllLoaded-before k h m m1 m' p [] l loaded lqs all = tt
  AllLoaded-before k h m m1 m' p (q ∷ ps) l loaded (lq, between, lqs) (here, file, zeros, all) = (
    here,
    λ i small.
        let src = (kernel + q.offset) % 2 ^ 64 + i in
        file i small
        ∙ loaded.outside src (
            out_of src (target base p) (end base p) (λ j low high e.
              mapped-vacant k src j (lq.source i small) (l.vacant j low high) (ap page_bits e))),
    zeros,
    AllLoaded-before k h m m1 m' p ps l loaded lqs all,
  )

  -- What the loop leaves.
  pub record Ended (n : ℕ) (ps : List Phdr) (level level' : Ptr → ℕ) (k h : Kernel) (m m' : Memory)
      : Type 0 where
    pub tree : Tree level' (frame h) h.pcx_root h.pages
    pub bump : Bump n h
    pub loaded : AllLoaded base kernel h m m' ps
    pub bytes : (b : ℕ) → Outside base b 1 ps → m' b ≡ m b
    pub still : (a : ℕ) → mapped k a ≡ true → mapped h a ≡ true
    pub elsewhere :
        (a : ℕ) → Off base a ps → walk h.pages 4 h.pcx_root a ≡ walk k.pages 4 k.pcx_root a
    pub rest : record h { alloc_base = k.alloc_base; pages = k.pages } ≡ k

  -- After one segment, and the others.
  Ended-cons :
      (n1 n : ℕ) (p : Phdr) (ps : List Phdr) (level level' level'' : Ptr → ℕ) (k g h : Kernel)
      (m m1 m' : Memory)
      → Loadable base kernel p k
      → Outside base (target base p) (0x1000 * pages_of p) ps
      → AllLoadable base kernel k ps
      → Loaded base kernel p m m1
      → Extended n1 (target base p) (end base p) level level' k g
      → Ended n ps level' level'' g h m1 m'
      → Ended n (p ∷ ps) level level'' k h m m'
  Ended-cons n1 n p ps level level' level'' k g h m m1 m' l between lqs one extended rest =
      let keep : (i : ℕ) → i < p.memsz → m' (target base p + i) ≡ m1 (target base p + i) =
        λ i small. rest.bytes (target base p + i) (
          Outside-part base (target base p) (0x1000 * pages_of p) (target base p + i) 1 ps
            (omega arith) (omega arith) between) in
      record {
        tree = rest.tree;
        bump = rest.bump;
        loaded = (
          (λ i small.
              rest.still (target base p + i)
                (extended.inside (target base p + i) (omega arith) (omega arith))),
          (λ i small. keep i (let sizes = l.sizes in omega arith) ∙ one.file i small),
          (λ i big small. keep i small ∙ one.zeros i big small),
          AllLoaded-before k h m m1 m' p ps l one lqs rest.loaded,
        );
        bytes = λ b out. rest.bytes b out.1 ∙ one.outside b (ground (arith, out.0));
        still = λ a here. rest.still a (
            mapped-Extended n1 (target base p) (end base p) level level' k g extended l.vacant a
              here);
        elsewhere = λ a off. rest.elsewhere a off.1 ∙ extended.elsewhere a off.0;
        rest = ap (reset k) rest.rest ∙ extended.rest;
      }

  header_loop-step :
      (left : Ptr → ℕ → ℕ) (n i phoff phentsize d : ℕ) (p : Phdr) (k g : Kernel) (m m1 : Memory)
      → phdr m (header base kernel phoff phentsize i) ≡ p
      → map_segment left base kernel p m k ≡ ok m1 g
      → header_loop left (suc n) i phoff phentsize base kernel d m k
        ≡ header_loop left n
            (i + 1)
            phoff
            phentsize
            base
            kernel
            (if p.type == 2 then (kernel + p.offset) % 2 ^ 64 else d)
            m1
            g
  unfolding header_loop
  header_loop-step left n i phoff phentsize d p k g m m1 is ran = rw (is, ran) refl

  -- For loadable segments whose pages are apart from each other and from the headers, with a tree of tables
  -- and four frames left for each page, the loop loads all of them.
  pub header_loop-Ended :
      (left : Ptr → ℕ → ℕ) (n phoff phentsize : ℕ) (ps : List Phdr) (i d : ℕ) (level : Ptr → ℕ)
      (k : Kernel) (m : Memory)
      → Tree level (frame k) k.pcx_root k.pages
      → Bump (4 * all_pages ps + n) k
      → Headers base kernel phoff phentsize m i ps ps
      → AllLoadable base kernel k ps
      → (m' : Memory) × (h : Kernel) × (level' : Ptr → ℕ) × (header_loop left
            (headers ps)
            i
            phoff
            phentsize
            base
            kernel
            d
            m
            k
          ≡ ok (dynamic_of base kernel d ps, m') h)
        × Ended n ps level level' k h m m'
  unfolding header_loop
  header_loop-Ended left n phoff phentsize [] i d level k m tree bump heads lqs = (
    m,
    k,
    level,
    refl,
    record {
      tree = tree;
      bump = Bump-le n (4 * 0 + n) k (omega arith) bump;
      loaded = tt;
      bytes = λ b out. refl;
      still = λ a here. here;
      elsewhere = λ a off. refl;
      rest = refl;
    },
  )
  header_loop-Ended left n phoff phentsize (p ∷ ps) i d level k m tree bump (is, out, heads)
        (l, between, lqs) =
      let (m1, g, level', ran, one, extended) =
        map_segment-Loaded left (4 * all_pages ps + n) base kernel p level k m tree
          (Bump-le (4 * pages_of p + (4 * all_pages ps + n)) (4 * (pages_of p + all_pages ps) + n) k
            (omega arith) bump)
          l in
      let (m', h, level'', ran', ended) =
        header_loop-Ended left n phoff phentsize ps (i + 1)
          (if p.type == 2 then (kernel + p.offset) % 2 ^ 64 else d) level' g m1 extended.tree
          extended.bump (Headers-Loaded base kernel phoff phentsize (i + 1) m m1 p ps ps one heads)
          (AllLoadable-Extended base kernel (4 * all_pages ps + n) level level' k g p ps l extended
            between lqs) in
      (
        m',
        h,
        level'',
        header_loop-step left (headers ps) i phoff phentsize d p k g m m1 is ran ∙ ran',
        Ended-cons (4 * all_pages ps + n) n p ps level level' level'' k g h m m1 m' l between lqs
            one extended ended,
      )
