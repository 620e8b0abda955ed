-- ===== src/Messages/Message/Fits.antt =====
-- When the fields of a message of p9/messages.go fit the layout, and what of a message arrives.
use p.Messages.Session.Layout.{
  TversionFits, RversionFits, TflushFits, RflushFits, RlerrorFits, TauthFits, RauthFits,
  TattachFits, RattachFits,
}
use p.Messages.Walk.Layout.{
  TwalkFits, RwalkFits, TclunkFits, RclunkFits, TwalkgetattrFits, RwalkgetattrFits,
}
use p.Messages.Open.Layout.{
  TlopenFits, RlopenFits, TlcreateFits, RlcreateFits, TucreateFits, RucreateFits,
}
use p.Messages.Names.Layout.{
  TremoveFits, RremoveFits, TlinkFits, RlinkFits, TrenameatFits, RrenameatFits, TunlinkatFits,
  RunlinkatFits, TrenameFits, RrenameFits, TreadlinkFits, RreadlinkFits,
}
use p.Messages.Make.Layout.{
  TsymlinkFits, RsymlinkFits, TusymlinkFits, RusymlinkFits, TmknodFits, RmknodFits, TumknodFits,
  RumknodFits, TmkdirFits, RmkdirFits, TumkdirFits, RumkdirFits,
}
use p.Messages.Attributes.Layout.{
  TgetattrFits, RgetattrFits, TsetattrFits, RsetattrFits, TxattrwalkFits, RxattrwalkFits,
  TxattrcreateFits, RxattrcreateFits, TstatfsFits, RstatfsFits,
}
use p.Messages.Transfer.Layout.{
  TreadFits, RwriteFits, TfsyncFits, RfsyncFits, TreaddirFits, TlockFits, RlockFits,
}
use p.Messages.Payload.Layout.{RreadFits, TwriteFits}
use p.Messages.Payload.Listing.{RreaddirFits, sent_rreaddir}
use p.Messages.Message.{
  Message, rlerror, tstatfs, rstatfs, tlopen, rlopen, tlcreate, rlcreate, tsymlink, rsymlink,
  tmknod, rmknod, trename, rrename, treadlink, rreadlink, tgetattr, rgetattr, tsetattr, rsetattr,
  txattrwalk, rxattrwalk, txattrcreate, rxattrcreate, treaddir, rreaddir, tfsync, rfsync, tlock,
  rlock, tlink, rlink, tmkdir, rmkdir, trenameat, rrenameat, tunlinkat, runlinkat, tversion,
  rversion, tauth, rauth, tattach, rattach, tflush, rflush, twalk, rwalk, tread, rread, twrite,
  rwrite, tclunk, rclunk, tremove, rremove, twalkgetattr, rwalkgetattr, tucreate, rucreate, tumkdir,
  rumkdir, tumknod, rumknod, tusymlink, rusymlink,
}

-- Every number fits its width, and every string and list the 16 bits of its length.
abbrev pub Fits : Message → Type 0
Fits (rlerror m) = RlerrorFits m
Fits (tstatfs m) = TstatfsFits m
Fits (rstatfs m) = RstatfsFits m
Fits (tlopen m) = TlopenFits m
Fits (rlopen m) = RlopenFits m
Fits (tlcreate m) = TlcreateFits m
Fits (rlcreate m) = RlcreateFits m
Fits (tsymlink m) = TsymlinkFits m
Fits (rsymlink m) = RsymlinkFits m
Fits (tmknod m) = TmknodFits m
Fits (rmknod m) = RmknodFits m
Fits (trename m) = TrenameFits m
Fits (rrename m) = RrenameFits m
Fits (treadlink m) = TreadlinkFits m
Fits (rreadlink m) = RreadlinkFits m
Fits (tgetattr m) = TgetattrFits m
Fits (rgetattr m) = RgetattrFits m
Fits (tsetattr m) = TsetattrFits m
Fits (rsetattr m) = RsetattrFits m
Fits (txattrwalk m) = TxattrwalkFits m
Fits (rxattrwalk m) = RxattrwalkFits m
Fits (txattrcreate m) = TxattrcreateFits m
Fits (rxattrcreate m) = RxattrcreateFits m
Fits (treaddir m) = TreaddirFits m
Fits (rreaddir m) = RreaddirFits m
Fits (tfsync m) = TfsyncFits m
Fits (rfsync m) = RfsyncFits m
Fits (tlock m) = TlockFits m
Fits (rlock m) = RlockFits m
Fits (tlink m) = TlinkFits m
Fits (rlink m) = RlinkFits m
Fits (tmkdir m) = TmkdirFits m
Fits (rmkdir m) = RmkdirFits m
Fits (trenameat m) = TrenameatFits m
Fits (rrenameat m) = RrenameatFits m
Fits (tunlinkat m) = TunlinkatFits m
Fits (runlinkat m) = RunlinkatFits m
Fits (tversion m) = TversionFits m
Fits (rversion m) = RversionFits m
Fits (tauth m) = TauthFits m
Fits (rauth m) = RauthFits m
Fits (tattach m) = TattachFits m
Fits (rattach m) = RattachFits m
Fits (tflush m) = TflushFits m
Fits (rflush m) = RflushFits m
Fits (twalk m) = TwalkFits m
Fits (rwalk m) = RwalkFits m
Fits (tread m) = TreadFits m
Fits (rread m) = RreadFits m
Fits (twrite m) = TwriteFits m
Fits (rwrite m) = RwriteFits m
Fits (tclunk m) = TclunkFits m
Fits (rclunk m) = RclunkFits m
Fits (tremove m) = TremoveFits m
Fits (rremove m) = RremoveFits m
Fits (twalkgetattr m) = TwalkgetattrFits m
Fits (rwalkgetattr m) = RwalkgetattrFits m
Fits (tucreate m) = TucreateFits m
Fits (rucreate m) = RucreateFits m
Fits (tumkdir m) = TumkdirFits m
Fits (rumkdir m) = RumkdirFits m
Fits (tumknod m) = TumknodFits m
Fits (rumknod m) = RumknodFits m
Fits (tusymlink m) = TusymlinkFits m
Fits (rusymlink m) = RusymlinkFits m

-- The message that a receiver decodes: only a listing is cut short, to the entries that fit.
abbrev pub sent : Message → Message
sent (rreaddir r) = rreaddir (sent_rreaddir r)
sent m = m
