-- ===== src/Types/MsgType.antt =====
-- The message types of p9/p9.go.
use p.Base.{ℕ}

abbrev pub msg_rlerror : ℕ
msg_rlerror = 7

abbrev pub msg_tstatfs : ℕ
msg_tstatfs = 8

abbrev pub msg_rstatfs : ℕ
msg_rstatfs = 9

abbrev pub msg_tlopen : ℕ
msg_tlopen = 12

abbrev pub msg_rlopen : ℕ
msg_rlopen = 13

abbrev pub msg_tlcreate : ℕ
msg_tlcreate = 14

abbrev pub msg_rlcreate : ℕ
msg_rlcreate = 15

abbrev pub msg_tsymlink : ℕ
msg_tsymlink = 16

abbrev pub msg_rsymlink : ℕ
msg_rsymlink = 17

abbrev pub msg_tmknod : ℕ
msg_tmknod = 18

abbrev pub msg_rmknod : ℕ
msg_rmknod = 19

abbrev pub msg_trename : ℕ
msg_trename = 20

abbrev pub msg_rrename : ℕ
msg_rrename = 21

abbrev pub msg_treadlink : ℕ
msg_treadlink = 22

abbrev pub msg_rreadlink : ℕ
msg_rreadlink = 23

abbrev pub msg_tgetattr : ℕ
msg_tgetattr = 24

abbrev pub msg_rgetattr : ℕ
msg_rgetattr = 25

abbrev pub msg_tsetattr : ℕ
msg_tsetattr = 26

abbrev pub msg_rsetattr : ℕ
msg_rsetattr = 27

abbrev pub msg_txattrwalk : ℕ
msg_txattrwalk = 30

abbrev pub msg_rxattrwalk : ℕ
msg_rxattrwalk = 31

abbrev pub msg_txattrcreate : ℕ
msg_txattrcreate = 32

abbrev pub msg_rxattrcreate : ℕ
msg_rxattrcreate = 33

abbrev pub msg_treaddir : ℕ
msg_treaddir = 40

abbrev pub msg_rreaddir : ℕ
msg_rreaddir = 41

abbrev pub msg_tfsync : ℕ
msg_tfsync = 50

abbrev pub msg_rfsync : ℕ
msg_rfsync = 51

abbrev pub msg_tlock : ℕ
msg_tlock = 52

abbrev pub msg_rlock : ℕ
msg_rlock = 53

abbrev pub msg_tgetlock : ℕ
msg_tgetlock = 54

abbrev pub msg_rgetlock : ℕ
msg_rgetlock = 55

abbrev pub msg_tlink : ℕ
msg_tlink = 70

abbrev pub msg_rlink : ℕ
msg_rlink = 71

abbrev pub msg_tmkdir : ℕ
msg_tmkdir = 72

abbrev pub msg_rmkdir : ℕ
msg_rmkdir = 73

abbrev pub msg_trenameat : ℕ
msg_trenameat = 74

abbrev pub msg_rrenameat : ℕ
msg_rrenameat = 75

abbrev pub msg_tunlinkat : ℕ
msg_tunlinkat = 76

abbrev pub msg_runlinkat : ℕ
msg_runlinkat = 77

abbrev pub msg_tversion : ℕ
msg_tversion = 100

abbrev pub msg_rversion : ℕ
msg_rversion = 101

abbrev pub msg_tauth : ℕ
msg_tauth = 102

abbrev pub msg_rauth : ℕ
msg_rauth = 103

abbrev pub msg_tattach : ℕ
msg_tattach = 104

abbrev pub msg_rattach : ℕ
msg_rattach = 105

abbrev pub msg_tflush : ℕ
msg_tflush = 108

abbrev pub msg_rflush : ℕ
msg_rflush = 109

abbrev pub msg_twalk : ℕ
msg_twalk = 110

abbrev pub msg_rwalk : ℕ
msg_rwalk = 111

abbrev pub msg_tread : ℕ
msg_tread = 116

abbrev pub msg_rread : ℕ
msg_rread = 117

abbrev pub msg_twrite : ℕ
msg_twrite = 118

abbrev pub msg_rwrite : ℕ
msg_rwrite = 119

abbrev pub msg_tclunk : ℕ
msg_tclunk = 120

abbrev pub msg_rclunk : ℕ
msg_rclunk = 121

abbrev pub msg_tremove : ℕ
msg_tremove = 122

abbrev pub msg_rremove : ℕ
msg_rremove = 123

abbrev pub msg_tflushf : ℕ
msg_tflushf = 124

abbrev pub msg_rflushf : ℕ
msg_rflushf = 125

abbrev pub msg_twalkgetattr : ℕ
msg_twalkgetattr = 126

abbrev pub msg_rwalkgetattr : ℕ
msg_rwalkgetattr = 127

abbrev pub msg_tucreate : ℕ
msg_tucreate = 128

abbrev pub msg_rucreate : ℕ
msg_rucreate = 129

abbrev pub msg_tumkdir : ℕ
msg_tumkdir = 130

abbrev pub msg_rumkdir : ℕ
msg_rumkdir = 131

abbrev pub msg_tumknod : ℕ
msg_tumknod = 132

abbrev pub msg_rumknod : ℕ
msg_rumknod = 133

abbrev pub msg_tusymlink : ℕ
msg_tusymlink = 134

abbrev pub msg_rusymlink : ℕ
msg_rusymlink = 135
