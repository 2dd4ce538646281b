-- ===== src/Spider/Crew/Waiting.antt =====
-- Workers that have nothing to do.
use amigao.Base.{[], none, List, ◌∷◌, some, ◌≡◌, refl, sym, ◌∙◌, All, Bytes}
use amigao.Interleaving.{Step, here, there, Steps, none_left, then_step}
use amigao.Spider.Crew.{
  at_start, Worker, Turn, takes, skips, fetches, puts, keeps_none, keeps_one, reads, stores,
}
use amigao.Spider.Worker.{DbOperation, Outside, Spider, again, crawl_round, parse_round}
use amigao.Spider.Worker.Stuck.{next_url-retry, take_page-none, rounds_stuck}

-- Both rings are empty, and the file of urls starts with an empty line.
pub record IsDry {D : Type 0} (s : Spider D) : Type 0 where
  pub ring : s.url_ring.url_head ≡ s.url_ring.url_tail
  pub page_ring : s.html_ring.html_head ≡ s.html_ring.html_tail
  pub lines : List Bytes
  pub file : s.read_url ≡ some ([] ∷ lines)

module _ {D : Type 0} (op : DbOperation D) (out : Outside) where
  no_Turn :
      (w : Worker) (s : Spider D) (w' : Worker) (r : Spider D)
      → Turn op out w s w' r
      → w.phase ≡ at_start
      → IsDry s
      → ⊥
  no_Turn w s w' r (takes e) p h = cc (sym (next_url-retry s h.lines h.ring h.file) ∙ e)
  no_Turn w s w' r (skips d e) p h = cc p
  no_Turn w s w' r (fetches e) p h = cc p
  no_Turn w s w' r (puts e) p h = cc p
  no_Turn w s w' r (keeps_none e) p h = cc p
  no_Turn w s w' r (keeps_one e) p h = cc p
  no_Turn w s w' r (reads got e) p h = cc (sym (take_page-none s.html_ring h.page_ring) ∙ got)
  no_Turn w s w' r (stores e) p h = cc p

  no_Step :
      (ws : List Worker) (s : Spider D) (vs : List Worker) (r : Spider D)
      → Step (Turn op out) ws s vs r
      → All (λ w. w.phase ≡ at_start) ws
      → IsDry s
      → ⊥
  no_Step ws s vs r (here {t = w} {t' = w'} turn) p h = no_Turn w s w' r turn p.0 h
  no_Step ws s vs r (there {ts = ws'} {ts' = vs'} step) p h = no_Step ws' s vs' r step p.1 h

  -- When both rings are empty, the file of urls starts with an empty line and all workers are at their
  -- start, they wait for ever, whatever urls follow in the file: in every run of any number of them all
  -- stay at their start and the state stays as it is, and each round that one makes there only leads
  -- back to the start, without an exit.
  pub workers_wait :
      (ws : List Worker) (s : Spider D) (vs : List Worker) (r : Spider D)
      → All (λ w. w.phase ≡ at_start) ws
      → IsDry s
      → Steps (Turn op out) ws s vs r
      → (vs ≡ ws)
        × (r ≡ s)
        × (crawl_round op out none s ≡ again s)
        × (parse_round op out s ≡ again s)
  workers_wait ws s vs r p h none_left =
      let (crawl, parse) = rounds_stuck op out s h.lines h.ring h.page_ring h.file in
      (refl, refl, crawl, parse)
  workers_wait ws s vs r p h (then_step {us = us} {q = q} step more) =
      absurd (no_Step ws s us q step p h)
