-- ===== src/Types/Layout.antt =====
-- The layouts of the values of p9/p9.go that a message holds.
use p.Base.{◌^◌, ◌<◌}
use p.Buffer.RoundTrip.{Sticky, RoundTrips}
use p.Buffer.FieldLaws.{IsText, sticky_rules, round_trip_rules}
use p.Types.Qid.{Qid, FsStat, decode_qid, encode_qid, decode_fs_stat, encode_fs_stat}
use p.Types.Attr.{Attr, SetAttr, decode_attr, encode_attr, decode_set_attr, encode_set_attr}
use p.Types.Dirent.{Dirent, decode_dirent, encode_dirent}

pub record QidFits (t : Qid) : Type 0 where
  pub type : t.type < 2 ^ 8
  pub version : t.version < 2 ^ 32
  pub path : t.path < 2 ^ 64

pub decode_qid-Sticky : Sticky decode_qid
unfolding decode_qid
decode_qid-Sticky = search sticky_rules depth 12

pub decode_qid-RoundTrips : (t : Qid) → QidFits t → RoundTrips (encode_qid t) decode_qid t
unfolding decode_qid encode_qid
decode_qid-RoundTrips t h = search (round_trip_rules, sticky_rules) depth 12

pub record FsStatFits (t : FsStat) : Type 0 where
  pub type : t.type < 2 ^ 32
  pub block_size : t.block_size < 2 ^ 32
  pub blocks : t.blocks < 2 ^ 64
  pub blocks_free : t.blocks_free < 2 ^ 64
  pub blocks_available : t.blocks_available < 2 ^ 64
  pub files : t.files < 2 ^ 64
  pub files_free : t.files_free < 2 ^ 64
  pub fsid : t.fsid < 2 ^ 64
  pub name_length : t.name_length < 2 ^ 32

pub decode_fs_stat-Sticky : Sticky decode_fs_stat
unfolding decode_fs_stat
decode_fs_stat-Sticky = search sticky_rules depth 24

pub decode_fs_stat-RoundTrips :
    (t : FsStat) → FsStatFits t → RoundTrips (encode_fs_stat t) decode_fs_stat t
unfolding decode_fs_stat encode_fs_stat
decode_fs_stat-RoundTrips t h = search (round_trip_rules, sticky_rules) depth 24

pub record AttrFits (t : Attr) : Type 0 where
  pub mode : t.mode < 2 ^ 32
  pub uid : t.uid < 2 ^ 32
  pub gid : t.gid < 2 ^ 32
  pub n_link : t.n_link < 2 ^ 64
  pub r_dev : t.r_dev < 2 ^ 64
  pub size : t.size < 2 ^ 64
  pub block_size : t.block_size < 2 ^ 64
  pub blocks : t.blocks < 2 ^ 64
  pub a_time_seconds : t.a_time_seconds < 2 ^ 64
  pub a_time_nano_seconds : t.a_time_nano_seconds < 2 ^ 64
  pub m_time_seconds : t.m_time_seconds < 2 ^ 64
  pub m_time_nano_seconds : t.m_time_nano_seconds < 2 ^ 64
  pub c_time_seconds : t.c_time_seconds < 2 ^ 64
  pub c_time_nano_seconds : t.c_time_nano_seconds < 2 ^ 64
  pub b_time_seconds : t.b_time_seconds < 2 ^ 64
  pub b_time_nano_seconds : t.b_time_nano_seconds < 2 ^ 64
  pub gen : t.gen < 2 ^ 64
  pub data_version : t.data_version < 2 ^ 64

pub decode_attr-Sticky : Sticky decode_attr
unfolding decode_attr
decode_attr-Sticky = search sticky_rules depth 42

pub decode_attr-RoundTrips : (t : Attr) → AttrFits t → RoundTrips (encode_attr t) decode_attr t
unfolding decode_attr encode_attr
decode_attr-RoundTrips t h = search (round_trip_rules, sticky_rules) depth 42 fits 9000

pub record SetAttrFits (t : SetAttr) : Type 0 where
  pub permissions : t.permissions < 2 ^ 12
  pub uid : t.uid < 2 ^ 32
  pub gid : t.gid < 2 ^ 32
  pub size : t.size < 2 ^ 64
  pub a_time_seconds : t.a_time_seconds < 2 ^ 64
  pub a_time_nano_seconds : t.a_time_nano_seconds < 2 ^ 64
  pub m_time_seconds : t.m_time_seconds < 2 ^ 64
  pub m_time_nano_seconds : t.m_time_nano_seconds < 2 ^ 64

pub decode_set_attr-Sticky : Sticky decode_set_attr
unfolding decode_set_attr
decode_set_attr-Sticky = search sticky_rules depth 22

pub decode_set_attr-RoundTrips :
    (t : SetAttr) → SetAttrFits t → RoundTrips (encode_set_attr t) decode_set_attr t
unfolding decode_set_attr encode_set_attr
decode_set_attr-RoundTrips t h = search (round_trip_rules, sticky_rules) depth 22

pub record DirentFits (t : Dirent) : Type 0 where
  pub qid : QidFits t.qid
  pub offset : t.offset < 2 ^ 64
  pub type : t.type < 2 ^ 8
  pub name : IsText t.name

pub decode_dirent-Sticky : Sticky decode_dirent
unfolding decode_dirent
decode_dirent-Sticky = search (sticky_rules, decode_qid-Sticky) depth 14

pub decode_dirent-RoundTrips :
    (t : Dirent) → DirentFits t → RoundTrips (encode_dirent t) decode_dirent t
unfolding decode_dirent encode_dirent
decode_dirent-RoundTrips t h =
    search (round_trip_rules, sticky_rules, decode_qid-RoundTrips) depth 14
