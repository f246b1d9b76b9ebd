-- ===== src/Tracker/Receive.antt =====
-- keep_track.c, the receiving side: which packets of a download have arrived in order.
pub mod InOrder
use bittorrent_with_congesti.Base.{
  ℕ, Option, none, some, List, [], ◌∷◌, ◌==◌, if◌then◌else◌, ltb, add32, get_elem?, set,
}
use bittorrent_with_congesti.Tracker.{PacketRecord, Download, Tracker, get_download_index_by_id}

-- `add_record` from a node of the chain on: the walk to the last node below `seq`, and the
-- insertion behind it of a packet that comes next.
insert_behind : PacketRecord → PacketRecord → List PacketRecord → List PacketRecord
insert_behind new root [] = if add32 root.seq 1 == new.seq then root ∷ new ∷ [] else root ∷ []
insert_behind new root (n ∷ ns) =
    let rest = insert_behind new n ns in
    if ltb n.seq new.seq
    then root ∷ rest
    else if add32 root.seq 1 == new.seq
    then root ∷ new ∷ n ∷ ns
    else root ∷ n ∷ ns

pub add_record : List PacketRecord → ℕ → ℕ → List PacketRecord
unfolding insert_behind
add_record [] seq len = record { seq = seq; length = len } ∷ []
add_record (root ∷ ns) seq len = insert_behind (record { seq = seq; length = len }) root ns

-- The loop of `track_data_packet`: what is left of the chain from the last node that continues
-- its predecessors. The nodes before it are freed.
advance : PacketRecord → List PacketRecord → List PacketRecord
advance node [] = node ∷ []
advance node (n ∷ ns) =
    let rest = advance n ns in if add32 node.seq 1 == n.seq then rest else node ∷ n ∷ ns

pub track_records : List PacketRecord → ℕ → ℕ → List PacketRecord
unfolding add_record advance
track_records chain seq len = elim (add_record chain seq len) [ [] ↦ [] | n ∷ ns ↦ advance n ns ]

-- `root -> seq`; the chain is never empty where this is read (`add_record` adds a root).
abbrev pub root_seq : List PacketRecord → ℕ
root_seq [] = 0
root_seq (n ∷ _) = n.seq

-- what a packet does to its stream, and the sequence number to acknowledge
abbrev pub track_download : Download → ℕ → ℕ → ℕ → Download × ℕ
track_download d seq len now =
    let chain = track_records d.last_acked_record seq len in
    (record d { last_time = now; last_acked_record = chain }, root_seq chain)

pub track_data_packet : Tracker → (peer_id seq len now : ℕ) → Tracker × ℕ
unfolding track_records
track_data_packet t peer_id seq len now = elim (get_download_index_by_id t peer_id) [
  | none ↦ (t, seq)
  | some i ↦ elim (get_elem? t.downloads i) [
    | none ↦ (t, seq)
    | some d ↦
        let (d', last) = track_download d seq len now in
        (record t { downloads = set t.downloads i d' }, last)
  ]
]
